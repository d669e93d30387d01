-- ===== src/Threads.antt =====
-- The two timers of src/basics/thread.cpp, whose handlers start a thread for the context each time.
use learn_asio.Base.{
  ℕ, suc, ◌+◌, ◌%◌, ◌^◌, ◌≤◌, ◌≡◌, refl, Bool, true, false, arith, ltb, if◌then◌else◌,
}

-- The two static counters (size_t of 64 bits), whether a wait of each timer is under way, and the
-- threads that were started.
pub record Threads : Type 0 where
  pub cnt1 : ℕ
  pub cnt2 : ℕ
  pub waiting1 : Bool
  pub waiting2 : Bool
  pub threads : ℕ

-- timer1_hander
unfoldable pub timer1_hander : Threads → Threads
timer1_hander s =
    let c = (s.cnt1 + 1) % 2 ^ 64 in
    if ltb c 10
    then record s { cnt1 = c; waiting1 = true; threads = suc s.threads }
    else record s { cnt1 = c }

-- timer2_handler
unfoldable pub timer2_handler : Threads → Threads
timer2_handler s =
    let c = (s.cnt2 + 1) % 2 ^ 64 in
    if ltb c 10
    then record s { cnt2 = c; waiting2 = true; threads = suc s.threads }
    else record s { cnt2 = c }

-- main, up to the join of its thread
unfoldable pub started : Threads
started = record { cnt1 = 0; cnt2 = 0; waiting1 = true; waiting2 = true; threads = 1 }

-- The states after `n` handlers. A timer's next wait is only started by its handler, so no two
-- threads run the same handler at once; the two handlers share nothing.
pub data Fires : ℕ → Threads → Type 0 where
  here : Fires 0 started
  fired1 :
      {n : ℕ} {s : Threads}
      → Fires n s
      → s.waiting1 ≡ true
      → Fires (suc n) (timer1_hander (record s { waiting1 = false }))
  fired2 :
      {n : ℕ} {s : Threads}
      → Fires n s
      → s.waiting2 ≡ true
      → Fires (suc n) (timer2_handler (record s { waiting2 = false }))

record IsFiring (n : ℕ) (s : Threads) : Type 0 where
  waits1 : s.waiting1 ≡ ltb s.cnt1 10
  waits2 : s.waiting2 ≡ ltb s.cnt2 10
  few1 : s.cnt1 ≤ 10
  few2 : s.cnt2 ≤ 10
  counted : n ≡ s.cnt1 + s.cnt2
  started_each :
      s.threads + (if s.waiting1 then 0 else 1) + (if s.waiting2 then 0 else 1)
      ≡ 1 + s.cnt1 + s.cnt2

Fires-IsFiring : {n : ℕ} {s : Threads} → Fires n s → IsFiring n s
unfolding started timer1_hander timer2_handler
Fires-IsFiring Fires.here = record {
  waits1 = refl;
  waits2 = refl;
  few1 = omega arith;
  few2 = omega arith;
  counted = refl;
  started_each = refl;
}
Fires-IsFiring (Fires.fired1 {n} {s} r w) =
    let v = Fires-IsFiring r in
    record {
      waits1 = ground (arith, w, v.waits1, v.few1);
      waits2 = ground (arith, v.waits2);
      few1 = ground (arith, w, v.waits1, v.few1);
      few2 = ground (arith, v.few2);
      counted = ground (arith, w, v.waits1, v.few1, v.counted);
      started_each = ground (arith, w, v.waits1, v.few1, v.started_each);
    }
Fires-IsFiring (Fires.fired2 {n} {s} r w) =
    let v = Fires-IsFiring r in
    record {
      waits1 = ground (arith, v.waits1);
      waits2 = ground (arith, w, v.waits2, v.few2);
      few1 = ground (arith, v.few1);
      few2 = ground (arith, w, v.waits2, v.few2);
      counted = ground (arith, w, v.waits2, v.few2, v.counted);
      started_each = ground (arith, w, v.waits2, v.few2, v.started_each);
    }

-- In whatever order the timers fire: once no wait is under way, each handler has run 10 times, and
-- 19 threads were started.
pub Fires-cnt :
    {n : ℕ} {s : Threads}
    → Fires n s
    → s.waiting1 ≡ false
    → s.waiting2 ≡ false
    → (n ≡ 20) × (s.cnt1 ≡ 10) × (s.cnt2 ≡ 10) × (s.threads ≡ 19)
Fires-cnt r a b =
    let v = Fires-IsFiring r in
    ground (arith, a, b, v.waits1, v.waits2, v.few1, v.few2, v.counted, v.started_each)

-- At most 20 handlers run.
pub Fires-bounded : {n : ℕ} {s : Threads} → Fires n s → n ≤ 20
Fires-bounded r = let v = Fires-IsFiring r in omega (arith, v.few1, v.few2, v.counted)
