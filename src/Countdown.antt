-- ===== src/Countdown.antt =====
-- The counting timers of src/basics/timer3.cpp, with its two ways to write the handler, and of
-- src/basics/timer4.cpp.
pub mod Together
pub mod Named
use learn_asio.Base.{
  ℕ, zero, suc, ◌+◌, ◌-◌, ◌*◌, ◌%◌, ◌^◌, ◌<◌, ◌≡◌, refl, ap, ◌∙◌, List, [], ◌∷◌, ◌++◌, append-nil,
  append_assoc, arith, ltb, ◌==◌, if◌then◌else◌,
}

-- std::chrono::seconds(1) in the nanoseconds of the clock
abbrev pub second : ℕ
second = 1000000000

-- The counter (an unsigned of 32 bits), the timer's expiry in nanoseconds, how many waits on it are
-- under way, and the numbers that were logged.
pub record Timer : Type 0 where
  pub count : ℕ
  pub expiry : ℕ
  pub waits : ℕ
  pub logged : List ℕ

-- expires_at one second later, and async_wait. A wait that was under way would be cancelled, and its
-- handler would still run.
abbrev pub again : Timer → Timer
again t = record t { expiry = t.expiry + second; waits = suc t.waits }

-- timer3's handler
unfoldable pub handler : Timer → Timer
handler t =
    if ltb t.count 5
    then again (record t { count = (t.count + 1) % 2 ^ 32; logged = t.logged ++ t.count ∷ [] })
    else t

-- wrapper::operator() of timer3; a copy of a wrapper refers to the same timer and counter.
unfoldable pub call : Timer → Timer
call t =
    if ltb t.count 5
    then again (record t { count = (t.count + 1) % 2 ^ 32; logged = t.logged ++ t.count ∷ [] })
    else t

-- timer4's printer::print
unfoldable pub print : Timer → Timer
print t =
    if ltb 0 t.count
    then again (record t { count = t.count - 1; logged = t.logged ++ t.count ∷ [] })
    else t

-- A timer whose first wait was started.
abbrev pub armed : ℕ → ℕ → List ℕ → Timer
armed count expiry logged = record { count = count; expiry = expiry; waits = 1; logged = logged }

-- io_context::run with a handler, for `n` handlers at most. It returns when no wait is left.
unfoldable pub run : (Timer → Timer) → ℕ → Timer → Timer
run h zero t = t
run h (suc n) t =
    let rest = run h n (h (record t { waits = t.waits - 1 })) in if t.waits == 0 then t else rest

abbrev pub expired : ℕ → ℕ → List ℕ → Timer
expired count expiry logged = record { count = count; expiry = expiry; waits = 0; logged = logged }

-- The numbers from `c` on, and those from `c` down to 1.
abbrev pub up : ℕ → ℕ → List ℕ
up c zero = []
up c (suc k) = c ∷ up (suc c) k

abbrev pub down : ℕ → List ℕ
down zero = []
down (suc c) = suc c ∷ down c

run-expired : (h : Timer → Timer) (n c e : ℕ) (l : List ℕ) → run h n (expired c e l) ≡ expired c e l
unfolding run
run-expired h zero c e l = refl
run-expired h (suc n) c e l = refl

handler_counts :
    (c e : ℕ) (l : List ℕ)
    → c < 5
    → handler (expired c e l) ≡ armed (suc c) (e + second) (l ++ c ∷ [])
unfolding handler
handler_counts c e l h = ground (arith, h)

handler_over : (c e : ℕ) (l : List ℕ) → c ≡ 5 → handler (expired c e l) ≡ expired c e l
unfolding handler
handler_over c e l h = ground (arith, h)

print_over : (e : ℕ) (l : List ℕ) → print (expired 0 e l) ≡ expired 0 e l
unfolding print
print_over e l = refl

print_counts :
    (c e : ℕ) (l : List ℕ) → print (expired (suc c) e l) ≡ armed c (e + second) (l ++ suc c ∷ [])
unfolding print
print_counts c e l = ground arith

-- One number more in the log.
expired_more :
    (count e k x : ℕ) (l more : List ℕ)
    → expired count (e + second + k * second) ((l ++ x ∷ []) ++ more)
      ≡ expired count (e + suc k * second) (l ++ x ∷ more)
expired_more count e k x l more = ground (arith, append_assoc l (x ∷ []) more)

run-handler :
    (n k c e : ℕ) (l : List ℕ)
    → k + c ≡ 5
    → k < n
    → run handler n (armed c e l) ≡ expired 5 (e + k * second) (l ++ up c k)
unfolding run
run-handler zero k c e l s f = absurd (omega (arith, f))
run-handler (suc n) zero c e l s f =
    let over : handler (expired c e l) ≡ expired c e l = handler_over c e l (omega (arith, s)) in
    ap (run handler n) over ∙ run-expired handler n c e l ∙ ground (arith, s, append-nil l)
run-handler (suc n) (suc k) c e l s f =
    ap (run handler n) (handler_counts c e l (omega (arith, s)))
    ∙ run-handler n k (suc c) (e + second) (l ++ c ∷ []) (omega (arith, s)) (omega (arith, f))
    ∙ expired_more 5 e k c l (up (suc c) k)

run-print :
    (n c e : ℕ) (l : List ℕ)
    → c < n
    → run print n (armed c e l) ≡ expired 0 (e + c * second) (l ++ down c)
unfolding run
run-print zero c e l f = absurd (omega (arith, f))
run-print (suc n) zero e l f =
    ap (run print n) (print_over e l) ∙ run-expired print n 0 e l ∙ ground (arith, append-nil l)
run-print (suc n) (suc c) e l f =
    ap (run print n) (print_counts c e l)
    ∙ run-print n c (e + second) (l ++ suc c ∷ []) (omega (arith, f))
    ∙ expired_more 0 e c (suc c) l (down c)

-- When `k` numbers are left to count, more than `k` handlers are enough for io_context::run to
-- return, for timer3 with either of its two handlers and for timer4: then timer3 has logged the
-- numbers up to 4 and timer4 those from `k` down to 1, and the timer has moved on by `k` seconds.
pub run_ends :
    (n k c e : ℕ)
    → k + c ≡ 5
    → k < n
    → (run handler n (armed c e []) ≡ expired 5 (e + k * second) (up c k))
      × (run call n (armed c e []) ≡ expired 5 (e + k * second) (up c k))
      × (run print n (armed k e []) ≡ expired 0 (e + k * second) (down k))
unfolding handler call
run_ends n k c e s f =
    (run-handler n k c e [] s f, run-handler n k c e [] s f, run-print n k e [] f)
