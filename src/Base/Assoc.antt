-- ===== src/Base/Assoc.antt =====
-- Finite maps with byte-string keys: std::unordered_map<std::string, std::string>. A key stands
-- once; the order of the entries carries no meaning.
use mathlib.Core.Path.{◌≡◌, refl}
use mathlib.Core.Option.{Option, none, some}
use mathlib.Core.List.{List, [], ◌∷◌}
use native.Mathlib.Omega.{arith}
use learn_asio.Base.Tests.{if◌then◌else◌}
use learn_asio.Base.Strings.{Bytes, beq, beq_iff}

abbrev pub Assoc : Type 0
Assoc = List (Bytes × Bytes)

unfoldable pub lookup : Bytes → Assoc → Option Bytes
lookup k [] = none
lookup k ((j, v) ∷ m) = if beq j k then some v else lookup k m

-- m[k] = v
unfoldable pub insert : Bytes → Bytes → Assoc → Assoc
insert k v [] = (k, v) ∷ []
insert k v ((j, w) ∷ m) = if beq j k then (j, v) ∷ m else (j, w) ∷ insert k v m

pub lookup-insert :
    (k j v : Bytes) (m : Assoc) → lookup j (insert k v m) ≡ (if beq k j then some v else lookup j m)
unfolding lookup insert
lookup-insert k j v [] = refl
lookup-insert k j v ((i, w) ∷ m) =
    ground (arith, beq_iff k j, beq_iff i k, beq_iff i j, lookup-insert k j v m)
