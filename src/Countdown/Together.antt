-- ===== src/Countdown/Together.antt =====
-- The two timers of src/basics/timer4.cpp on one io_context: the printer counts down while the
-- Logger's timer waits for eight seconds.
use learn_asio.Base.{
  ℕ, zero, suc, ◌+◌, ◌-◌, ◌*◌, ◌<◌, ◌≤◌, ◌≡◌, ◌≢◌, ◌⊎◌, inl, inr, refl, ap, ◌∙◌, subst, Bool, true,
  false, Option, none, some, List, [], ◌∷◌, Bytes, arith, Bool-cases, ltb, ◌==◌, ◌||◌,
}
use learn_asio.Countdown.{Timer, second, print, armed, expired}

-- What Logger::log logs: the error's text, or the function's own name.
pub data Logged : Type 0 where
  error : Bytes → Logged
  pretty_function : Logged

unfoldable pub log : Option Bytes → Logged
log (some text) = error text
log none = pretty_function

-- The printer, the expiry of the Logger's timer, whether its wait is under way, and what the Logger
-- has logged, with the numbers that the printer had logged before it.
pub record Together : Type 0 where
  pub printer : Timer
  pub expiry : ℕ
  pub is_waiting : Bool
  pub logged : Option (Logged × List ℕ)

-- main up to io_context::run; the two timers are made at these times.
unfoldable pub both_armed : ℕ → ℕ → Together
both_armed timer_made printer_made = record {
  printer = armed 5 (printer_made + second) [];
  expiry = timer_made + 8 * second;
  is_waiting = true;
  logged = none;
}

-- The states after a number of handlers in io_context::run. Of two waits the one whose timer expires
-- first ends first; nothing cancels them.
pub data Runs (t p : ℕ) : ℕ → Together → Type 0 where
  here : Runs t p 0 (both_armed t p)
  printed :
      {n : ℕ} {m : Together}
      → Runs t p n m
      → m.printer.waits ≢ 0
      → (m.is_waiting ≡ true → m.printer.expiry ≤ m.expiry)
      → Runs t p
          (suc n)
          (record m { printer = print (record m.printer { waits = m.printer.waits - 1 }) })
  timed_out :
      {n : ℕ} {m : Together}
      → Runs t p n m
      → m.is_waiting ≡ true
      → (m.printer.waits ≢ 0 → m.expiry ≤ m.printer.expiry)
      → Runs t p
          (suc n)
          (record m { is_waiting = false; logged = some (log none, m.printer.logged) })

abbrev pub five : List ℕ
five = 5 ∷ 4 ∷ 3 ∷ 2 ∷ 1 ∷ []

-- The printer after `k` of its handlers.
stage : ℕ → ℕ → Timer
stage p zero = armed 5 (p + second) []
stage p (suc zero) = armed 4 (p + 2 * second) (5 ∷ [])
stage p (suc (suc zero)) = armed 3 (p + 3 * second) (5 ∷ 4 ∷ [])
stage p (suc (suc (suc zero))) = armed 2 (p + 4 * second) (5 ∷ 4 ∷ 3 ∷ [])
stage p (suc (suc (suc (suc zero)))) = armed 1 (p + 5 * second) (5 ∷ 4 ∷ 3 ∷ 2 ∷ [])
stage p (suc (suc (suc (suc (suc zero))))) = armed 0 (p + 6 * second) five
stage p (suc (suc (suc (suc (suc (suc _)))))) = expired 0 (p + 6 * second) five

print-stage :
    (p k : ℕ)
    → (stage p k).waits ≢ 0
    → print (record (stage p k) { waits = (stage p k).waits - 1 }) ≡ stage p (suc k)
unfolding stage print
print-stage p zero h = ground arith
print-stage p (suc zero) h = ground arith
print-stage p (suc (suc zero)) h = ground arith
print-stage p (suc (suc (suc zero))) h = ground arith
print-stage p (suc (suc (suc (suc zero)))) h = ground arith
print-stage p (suc (suc (suc (suc (suc zero))))) h = ground arith
print-stage p (suc (suc (suc (suc (suc (suc k)))))) h = absurd (h refl)

-- The printer is at one of its stages, and if the Logger has logged, then after the fifth of them.
record IsTogether (t p n : ℕ) (m : Together) : Type 0 where
  k : ℕ
  few : k ≤ 6
  at_stage : m.printer ≡ stage p k
  same : m.expiry ≡ t + 8 * second
  either :
      ((m.is_waiting ≡ true) × (n ≡ k))
      ⊎ ((m.is_waiting ≡ false) × (n ≡ suc k) × (m.logged ≡ some (pretty_function, five)) × (5 ≤ k))

-- The printer waits for its next second up to stage 5, and from then on has logged all.
stage-cases :
    (p k : ℕ)
    → ((k ≤ 5)
        × ((stage p k).waits ≡ 1)
        × ((stage p k).expiry ≡ p + suc k * second)
        × ((k ≤ 4) ⊎ ((k ≡ 5) × ((stage p k).logged ≡ five))))
      ⊎ ((6 ≤ k) × ((stage p k).waits ≡ 0) × ((stage p k).logged ≡ five))
unfolding stage
stage-cases p zero = ground arith
stage-cases p (suc zero) = ground arith
stage-cases p (suc (suc zero)) = ground arith
stage-cases p (suc (suc (suc zero))) = ground arith
stage-cases p (suc (suc (suc (suc zero)))) = ground arith
stage-cases p (suc (suc (suc (suc (suc zero))))) = ground arith
stage-cases p (suc (suc (suc (suc (suc (suc k)))))) = ground arith

-- When the eight seconds have passed, all is logged.
full-stage :
    (t p k : ℕ)
    → p < t + 3 * second
    → ((stage p k).waits ≢ 0 → t + 8 * second ≤ (stage p k).expiry)
    → ((stage p k).logged ≡ five) × (5 ≤ k)
full-stage t p k early late = elim (stage-cases p k) [
  | inl (few, one, at, inl soon) ↦
      absurd (omega (arith, late (λ e. ground (arith, e, one)), at, soon, early))
  | inl (few, one, at, inr full) ↦ (full.1, omega (arith, full.0))
  | inr (many, none_left, full) ↦ (full, omega (arith, many))
]

Runs-IsTogether :
    {t p n : ℕ} {m : Together} → p < t + 3 * second → Runs t p n m → IsTogether t p n m
unfolding both_armed log stage
Runs-IsTogether early Runs.here = record {
  k = 0;
  few = omega arith;
  at_stage = refl;
  same = refl;
  either = inl (refl, refl);
}
Runs-IsTogether {t} {p} early (Runs.printed {n} {m} r waits first) =
    let v = Runs-IsTogether early r in
    let more : (stage p v.k).waits ≢ 0 = subst (λ x. x.waits ≢ 0) v.at_stage waits in
    record {
      k = suc v.k;
      few = ground (arith, stage-cases p v.k, more);
      at_stage =
          ap (λ x. print (record x { waits = x.waits - 1 })) v.at_stage ∙ print-stage p v.k more;
      same = v.same;
      either = ground (arith, v.either);
    }
Runs-IsTogether {t} {p} early (Runs.timed_out {n} {m} r waits first) =
    let v = Runs-IsTogether early r in
    let late : (stage p v.k).waits ≢ 0 → t + 8 * second ≤ (stage p v.k).expiry =
      subst (λ x. x.waits ≢ 0 → t + 8 * second ≤ x.expiry) v.at_stage
        (subst (λ e. m.printer.waits ≢ 0 → e ≤ m.printer.expiry) v.same first) in
    let full = full-stage t p v.k early late in
    let all : m.printer.logged ≡ five = ap (λ x. x.logged) v.at_stage ∙ full.0 in
    record {
      k = v.k;
      few = v.few;
      at_stage = v.at_stage;
      same = v.same;
      either = ground (arith, v.either, waits, all, full.1);
    }

-- Whatever state a run is in, one of the two waits can end, or none is under way.
next_end :
    {t p n : ℕ} {m : Together}
    → Runs t p n m
    → ((m' : Together) × Runs t p (suc n) m') ⊎ ((m.printer.waits ≡ 0) × (m.is_waiting ≡ false))
next_end {t} {p} {n} {m} r = elim (Bool-cases m.is_waiting) [
  | inl waits ↦ elim (Bool-cases ((m.printer.waits == 0) || ltb m.expiry m.printer.expiry)) [
    | inl first ↦ inl (_, Runs.timed_out r waits (λ h. ground (arith, first, h)))
    | inr later ↦
        inl (_, Runs.printed r (λ h. ground (arith, later, h)) (λ h. ground (arith, later)))
  ]
  | inr over ↦ elim (Bool-cases (m.printer.waits == 0)) [
    | inl none_left ↦ inr (ground (arith, none_left), over)
    | inr some_left ↦
        inl (_, Runs.printed r (λ h. ground (arith, some_left, h)) (λ h. ground (arith, over, h)))
  ]
]

-- A printer that waits no more is at its last stage.
last-stage : (p k : ℕ) → k ≤ 6 → (stage p k).waits ≡ 0 → (k ≡ 6) × ((stage p k).logged ≡ five)
last-stage p k few none_left = ground (arith, few, none_left, stage-cases p k)

-- When the printer is made less than three seconds after the Logger's timer, at most seven handlers
-- run, and there always is a next one, unless seven have run: then the printer has logged the numbers
-- from 5 down to 1, and after them, and not before, the Logger has logged its name.
pub Runs-ends :
    {t p n : ℕ} {m : Together}
    → p < t + 3 * second
    → Runs t p n m
    → (n ≤ 7)
      × (((m' : Together) × Runs t p (suc n) m')
          ⊎ ((n ≡ 7) × (m.printer.logged ≡ five) × (m.logged ≡ some (pretty_function, five))))
Runs-ends {t} {p} {n} {m} early r =
    let v = Runs-IsTogether early r in
    (
      ground (arith, v.either, v.few),
      elim (next_end r) [
        | inl more ↦ inl more
        | inr (none_left, over) ↦
            let last = last-stage p v.k v.few (subst (λ x. x.waits ≡ 0) v.at_stage none_left) in
            let all : m.printer.logged ≡ five = ap (λ x. x.logged) v.at_stage ∙ last.1 in
            inr (ground (arith, v.either, over, last.0), all, ground (arith, v.either, over))
      ],
    )
