-- ===== src/Printer/Unsynced.antt =====
-- class Printer of src/basics/timer5.cpp without the strand: the handlers of the two timers run on
-- several threads at once. C++ gives no meaning to what they then do with cnt_; here its loads and
-- stores happen one at a time, in any order, as they do on the machines that the program runs on.
use learn_asio.Base.{ℕ, ◌≤◌, ◌≡◌, ◌≢◌, ◌⊎◌, inl, inr, arith, ltb, if◌then◌else◌}
use learn_asio.Printer.{k_count, increment}

-- Where the handler of a timer stands: its timer is waited for, so that the test of cnt_ comes next;
-- the test was passed; cnt_++ has loaded this value; or the test has failed, and the timer is
-- waited for no more.
pub data Place : Type 0 where
  waiting tested : Place
  loaded : ℕ → Place
  over : Place

pub record Racing : Type 0 where
  pub cnt : ℕ
  pub place1 : Place
  pub place2 : Place

abbrev pub new_racing : Racing
new_racing = record { cnt = 0; place1 = waiting; place2 = waiting }

-- One step of Printer::print1, which is also one of Printer::print2: the new cnt_ and place.
unfoldable pub advance : ℕ → Place → ℕ × Place
advance cnt waiting = if ltb cnt k_count then (cnt, tested) else (cnt, over)
advance cnt tested = (cnt, loaded cnt)
advance cnt (loaded n) = (increment n, waiting)
advance cnt over = (cnt, over)

unfoldable pub step1 : Racing → Racing
unfolding advance
step1 r = let a = advance r.cnt r.place1 in record r { cnt = a.0; place1 = a.1 }

unfoldable pub step2 : Racing → Racing
unfolding advance
step2 r = let a = advance r.cnt r.place2 in record r { cnt = a.0; place2 = a.1 }

pub data Races : Racing → Type 0 where
  here : Races new_racing
  stepped1 : {r : Racing} → Races r → Races (step1 r)
  stepped2 : {r : Racing} → Races r → Races (step2 r)

-- Neither between its test and its store.
abbrev IsIdle : Place → Type 0
IsIdle p = (p ≡ waiting) ⊎ (p ≡ over)

-- What one handler has loaded is below the limit; and if the count is full and it has passed its
-- test, the other one is idle.
abbrev IsLow : ℕ → Place → Place → Type 0
IsLow c waiting q = Unit
IsLow c tested q = (c ≤ 99) ⊎ IsIdle q
IsLow c (loaded n) q = n ≤ 99
IsLow c over q = Unit

-- One handler has loaded the full count, and the other one is idle.
abbrev IsLate : ℕ → Place → Place → Type 0
IsLate c p q = (c ≡ 100) × (p ≡ loaded 100) × IsIdle q

unfoldable pub Bounded : ℕ → Place → Place → Type 0
Bounded c p q =
    ((c ≤ 100) × IsLow c p q × IsLow c q p)
    ⊎ (IsLate c p q ⊎ (IsLate c q p ⊎ ((c ≡ 101) × IsIdle p × IsIdle q)))

advance-Bounded : (c : ℕ) (p q : Place) → Bounded c p q → let a = advance c p in Bounded a.0 a.1 q
unfolding Bounded advance
advance-Bounded c waiting waiting v = ground (arith, v)
advance-Bounded c waiting tested v = ground (arith, v)
advance-Bounded c waiting (loaded m) v = ground (arith, v)
advance-Bounded c waiting over v = ground (arith, v)
advance-Bounded c tested waiting v = ground (arith, v)
advance-Bounded c tested tested v = ground (arith, v)
advance-Bounded c tested (loaded m) v = ground (arith, v)
advance-Bounded c tested over v = ground (arith, v)
advance-Bounded c (loaded n) waiting v = ground (arith, v)
advance-Bounded c (loaded n) tested v = ground (arith, v)
advance-Bounded c (loaded n) (loaded m) v = ground (arith, v)
advance-Bounded c (loaded n) over v = ground (arith, v)
advance-Bounded c over q v = v

pub Bounded-swap : (c : ℕ) (p q : Place) → Bounded c p q → Bounded c q p
unfolding Bounded
Bounded-swap c p q v = ground (arith, v)

-- Some handler is not over, or the count is full.
abbrev IsFull : ℕ → Place → Place → Type 0
IsFull c p q = (100 ≤ c) ⊎ ((p ≢ over) ⊎ (q ≢ over))

advance-IsFull : (c : ℕ) (p q : Place) → IsFull c p q → let a = advance c p in IsFull a.0 a.1 q
unfolding advance
advance-IsFull c waiting q v = ground (arith, v)
advance-IsFull c tested q v = inr (inl (ground arith))
advance-IsFull c (loaded n) q v = inr (inl (ground arith))
advance-IsFull c over q v = v

pub Races-Bounded : {r : Racing} → Races r → Bounded r.cnt r.place1 r.place2
unfolding Bounded step1 step2
Races-Bounded Races.here = ground arith
Races-Bounded (Races.stepped1 {r} s) = advance-Bounded r.cnt r.place1 r.place2 (Races-Bounded s)
Races-Bounded (Races.stepped2 {r} s) =
    let a = advance r.cnt r.place2 in
    Bounded-swap a.0 a.1 r.place1 (
      advance-Bounded r.cnt r.place2 r.place1
        (Bounded-swap r.cnt r.place1 r.place2 (Races-Bounded s)))

Races-IsFull : {r : Racing} → Races r → IsFull r.cnt r.place1 r.place2
unfolding step1 step2
Races-IsFull Races.here = ground arith
Races-IsFull (Races.stepped1 {r} s) = advance-IsFull r.cnt r.place1 r.place2 (Races-IsFull s)
Races-IsFull (Races.stepped2 {r} s) =
    let v = advance-IsFull r.cnt r.place2 r.place1 (ground (arith, Races-IsFull s)) in
    ground (arith, v)

-- Without the strand, and however the two handlers interleave, the count exceeds the limit of 100
-- by one at most; and once neither handler goes on, it is 100 or 101.
pub Races-cnt :
    {r : Racing}
    → Races r
    → (r.cnt ≤ 101) × ((100 ≤ r.cnt) ⊎ ((r.place1 ≢ over) ⊎ (r.place2 ≢ over)))
unfolding Bounded
Races-cnt {r} s = (ground (arith, Races-Bounded s), Races-IsFull s)
