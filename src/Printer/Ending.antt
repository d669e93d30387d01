-- ===== src/Printer/Ending.antt =====
-- How long the handlers of the Printer of src/basics/timer5.cpp go on without the strand.
use learn_asio.Base.{ℕ, suc, ◌+◌, ◌-◌, ◌*◌, ◌≤◌, ◌≢◌, Bool, false, leb, ◌==◌, if◌then◌else◌}
use learn_asio.Printer.Unsynced.{
  Place, waiting, tested, loaded, over, Racing, new_racing, step1, step2,
}

-- The states after a number of steps of handlers that are not over.
pub data Steps : ℕ → Racing → Type 0 where
  here : Steps 0 new_racing
  stepped1 : {n : ℕ} {r : Racing} → Steps n r → r.place1 ≢ over → Steps (suc n) (step1 r)
  stepped2 : {n : ℕ} {r : Racing} → Steps n r → r.place2 ≢ over → Steps (suc n) (step2 r)

abbrev min : ℕ → ℕ → ℕ
min a b = if leb a b then a else b

-- The value from which a handler goes on.
abbrev base : ℕ → Place → ℕ
base c waiting = c
base c tested = c
base c (loaded n) = n
base c over = c

-- The lowest value that cnt_ has or can get, which never falls.
level : ℕ → Place → Place → ℕ
level c p q = min c (min (base c p) (base c q))

-- The steps that a handler has left if the other one stands still, and those until it has loaded.
abbrev left : ℕ → Place → ℕ
left c waiting = 3 * (101 - c) + 1
left c tested = 3 * (101 - c)
left c (loaded n) = 3 * (101 - n) - 1
left c over = 0

abbrev until_load : Place → ℕ
until_load waiting = 2
until_load tested = 1
until_load (loaded n) = 0
until_load over = 0

abbrev holds : ℕ → Place → Bool
holds l waiting = false
holds l tested = false
holds l (loaded n) = n == l
holds l over = false

inner : ℕ → ℕ → Place → Place → ℕ
inner l c p q =
    if holds l p
    then left c q
    else if holds l q
    then left c p
    else 305 + until_load p + until_load q

weight : ℕ → Place → Place → ℕ
unfolding level inner
weight c p q = let l = level c p q in 310 * (101 - l) + inner l c p q

-- Neither cnt_ nor what is loaded exceeds the limit by more than one.
abbrev IsSmall : ℕ → Place → Type 0
IsSmall c waiting = c ≤ 101
IsSmall c tested = c ≤ 100
IsSmall c (loaded n) = (n ≤ 100) × (c ≤ 101)
IsSmall c over = c ≤ 101
