-- ===== src/Base/Strings.antt =====
-- Byte strings (std::string, char buffers): lists of byte values, with the equality that
-- std::string's == decides.
use Prim.Native.Nat.{ℕ}
use Prim.Native.Char.{code}
use Prim.Native.String.{String}
use mathlib.Core.Path.{◌≡◌, refl}
use mathlib.Core.Logic.{◌↔◌}
use mathlib.Core.Bool.{Bool, true, false, not, ◌&&◌}
use mathlib.Core.List.{List, [], ◌∷◌, ◌++◌}
use native.Mathlib.Omega.{arith}
use learn_asio.Base.Tests.{◌==◌}

abbrev pub Bytes : Type 0
Bytes = List ℕ

-- The bytes of an ASCII text.
abbrev pub codes : String → Bytes
codes String.[] = []
codes (String.◌∷◌ c s) = code c ∷ codes s

-- std::string::empty, std::deque::empty.
abbrev pub is_empty {ℓ} : {A : Type ℓ} → List A → Bool
is_empty [] = true
is_empty (_ ∷ _) = false

abbrev pub beq : Bytes → Bytes → Bool
beq [] [] = true
beq [] (_ ∷ _) = false
beq (_ ∷ _) [] = false
beq (x ∷ xs) (y ∷ ys) = x == y && beq xs ys

pub beq_iff : (xs ys : Bytes) → (beq xs ys ≡ true) ↔ (xs ≡ ys)
beq_iff [] [] = ground arith
beq_iff [] (y ∷ ys) = ground arith
beq_iff (x ∷ xs) [] = ground arith
beq_iff (x ∷ xs) (y ∷ ys) = ground (arith, beq_iff xs ys)

pub beq_refl : (xs : Bytes) → beq xs xs ≡ true
beq_refl xs = (beq_iff xs xs).1 refl

-- Whether a character does not occur.
abbrev pub lacks : ℕ → Bytes → Bool
lacks a [] = true
lacks a (c ∷ s) = not (c == a) && lacks a s

pub lacks-append : (a : ℕ) (s t : Bytes) → lacks a (s ++ t) ≡ (lacks a s && lacks a t)
lacks-append a [] t = refl
lacks-append a (c ∷ s) t = ground (arith, lacks-append a s t)
