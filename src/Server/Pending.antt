-- ===== src/Server/Pending.antt =====
-- Counting the operations under way, and membership in the manager's set (src/http_server).
use learn_asio.Base.{
  ℕ, ◌+◌, ◌≡◌, refl, not, ◌&&◌, ◌||◌, List, [], ◌∷◌, ◌++◌, arith, ◌==◌, if◌then◌else◌,
}
use learn_asio.Server.{
  Operation, accepting, waiting_signal, reading, writing, mem, set_insert, set_erase,
}

-- 1 if the operation's handler is bound to the connection `p`, else 0.
abbrev pub touches : ℕ → Operation → ℕ
touches p accepting = 0
touches p waiting_signal = 0
touches p (reading q) = if q == p then 1 else 0
touches p (writing q buffers) = if q == p then 1 else 0

abbrev pub is_accepting : Operation → ℕ
is_accepting accepting = 1
is_accepting waiting_signal = 0
is_accepting (reading q) = 0
is_accepting (writing q buffers) = 0

-- The operations under way on the connection `p`, and the accepts under way.
abbrev pub ops_on : ℕ → List Operation → ℕ
ops_on p [] = 0
ops_on p (op ∷ ops) = touches p op + ops_on p ops

abbrev pub accepts : List Operation → ℕ
accepts [] = 0
accepts (op ∷ ops) = is_accepting op + accepts ops

-- Taking one operation out of the middle.
pub ops_on_middle :
    (p : ℕ) (xs ys : List Operation) (op : Operation)
    → ops_on p (xs ++ op ∷ ys) ≡ touches p op + ops_on p (xs ++ ys)
ops_on_middle p [] ys op = refl
ops_on_middle p (x ∷ xs) ys op = omega (arith, ops_on_middle p xs ys op)

pub accepts_middle :
    (xs ys : List Operation) (op : Operation)
    → accepts (xs ++ op ∷ ys) ≡ is_accepting op + accepts (xs ++ ys)
accepts_middle [] ys op = refl
accepts_middle (x ∷ xs) ys op = omega (arith, accepts_middle xs ys op)

pub mem-set_insert : (p q : ℕ) (ps : List ℕ) → mem q (set_insert p ps) ≡ (p == q || mem q ps)
unfolding set_insert
mem-set_insert p q ps = ground arith

pub mem-set_erase : (p q : ℕ) (ps : List ℕ) → mem q (set_erase p ps) ≡ (not (p == q) && mem q ps)
unfolding set_erase
mem-set_erase p q [] = ground arith
mem-set_erase p q (r ∷ ps) = ground (arith, mem-set_erase p q ps)
