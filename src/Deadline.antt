-- ===== src/Deadline.antt =====
-- The connection attempt with a deadline of tutorial/106.timers.cpp: a timer, whose handler closes
-- the socket, and async_connect, whose handler cancels the timer.
use learn_asio.Base.{
  ℕ, suc, ◌+◌, ◌≤◌, ◌≡◌, ◌≢◌, ◌⊎◌, inl, inr, refl, Bool, true, false, List, [], ◌∷◌, ◌++◌, arith,
}

-- An asynchronous operation: under way, ended with its handler not run yet (`true` is an error), or
-- its handler has run.
pub data Progress : Type 0 where
  under_way : Progress
  ended : Bool → Progress
  handled : Progress

pub data Line : Type 0 where
  timer_expired connected : Line

pub record Attempt : Type 0 where
  pub timer : Progress
  pub connect : Progress
  pub is_open : Bool
  pub printed : List Line

-- cancel() of the timer, and what close() of the socket does to async_connect: only an operation
-- that is still under way is aborted.
abbrev pub abort : Progress → Progress
abort under_way = ended true
abort (ended error) = ended error
abort handled = handled

-- main up to io_context::run; async_connect opens the socket
abbrev pub new_attempt : Attempt
new_attempt = record { timer = under_way; connect = under_way; is_open = true; printed = [] }

-- The timer's handler
unfoldable pub on_timer : Bool → Attempt → Attempt
on_timer true s = s
on_timer false s = record s {
  printed = s.printed ++ timer_expired ∷ [];
  is_open = false;
  connect = abort s.connect;
}

-- The handler of async_connect
unfoldable pub on_connected : Bool → Attempt → Attempt
on_connected true s = s
on_connected false s = record s { timer = abort s.timer; printed = s.printed ++ connected ∷ [] }

-- What can happen while io_context::run runs: an operation ends, or the handler of one that has
-- ended runs. The timer is aborted only by cancel.
pub data AttemptStep (s s' : Attempt) : Type 0 where
  expired : s.timer ≡ under_way → s' ≡ record s { timer = ended false } → AttemptStep s s'
  connect_ended :
      (error : Bool)
      → s.connect ≡ under_way
      → s' ≡ record s { connect = ended error }
      → AttemptStep s s'
  timer_handled :
      (error : Bool)
      → s.timer ≡ ended error
      → s' ≡ on_timer error (record s { timer = handled })
      → AttemptStep s s'
  connect_handled :
      (error : Bool)
      → s.connect ≡ ended error
      → s' ≡ on_connected error (record s { connect = handled })
      → AttemptStep s s'

-- The runs from `s`, with the number of their steps.
pub data Attempts (s : Attempt) : ℕ → Attempt → Type 0 where
  here : Attempts s 0 s
  next : {n : ℕ} {u v : Attempt} → Attempts s n u → AttemptStep u v → Attempts s (suc n) v

-- io_context::run returns.
abbrev pub IsOver : Attempt → Type 0
IsOver s = (s.timer ≡ handled) × (s.connect ≡ handled)

-- Where an attempt can be: nothing printed; one line; or both, in either order.
Phases : Attempt → Type 0
Phases s =
    ((s.is_open ≡ true) × (s.printed ≡ []) × ((s.timer ≡ under_way) ⊎ (s.timer ≡ ended false)))
    ⊎ (((s.is_open ≡ false)
          × (s.printed ≡ timer_expired ∷ [])
          × (s.timer ≡ handled)
          × (s.connect ≢ under_way))
        ⊎ (((s.is_open ≡ true)
              × (s.printed ≡ connected ∷ [])
              × (s.connect ≡ handled)
              × (s.timer ≢ under_way))
            ⊎ ((s.is_open ≡ false)
                × ((s.printed ≡ timer_expired ∷ connected ∷ [])
                    ⊎ (s.printed ≡ connected ∷ timer_expired ∷ []))
                × (s.timer ≡ handled)
                × (s.connect ≡ handled))))

AttemptStep-Phases : {s s' : Attempt} → AttemptStep s s' → Phases s → Phases s'
unfolding Phases on_timer on_connected
AttemptStep-Phases (AttemptStep.expired e f) v = ground (arith, e, f, v)
AttemptStep-Phases (AttemptStep.connect_ended error e f) v = ground (arith, e, f, v)
AttemptStep-Phases (AttemptStep.timer_handled true e f) v = ground (arith, e, f, v)
AttemptStep-Phases (AttemptStep.timer_handled false e f) v = ground (arith, e, f, v)
AttemptStep-Phases (AttemptStep.connect_handled true e f) v = ground (arith, e, f, v)
AttemptStep-Phases (AttemptStep.connect_handled false e f) v = ground (arith, e, f, v)

Attempts-Phases : {n : ℕ} {s : Attempt} → Attempts new_attempt n s → Phases s
unfolding Phases
Attempts-Phases Attempts.here = inl (refl, refl, inl refl)
Attempts-Phases (Attempts.next r t) = AttemptStep-Phases t (Attempts-Phases r)

-- How many steps an operation has before it at most.
abbrev left : Progress → ℕ
left under_way = 2
left (ended error) = 1
left handled = 0

AttemptStep-left :
    {s s' : Attempt}
    → AttemptStep s s'
    → suc (left s'.timer + left s'.connect) ≤ left s.timer + left s.connect
unfolding on_timer on_connected
AttemptStep-left {s} (AttemptStep.expired e f) = ground (arith, e, f)
AttemptStep-left {s} (AttemptStep.connect_ended error e f) = ground (arith, e, f)
AttemptStep-left {s} (AttemptStep.timer_handled true e f) = ground (arith, e, f)
AttemptStep-left {s} (AttemptStep.timer_handled false e f) = ground (arith, e, f)
AttemptStep-left {s} (AttemptStep.connect_handled true e f) = ground (arith, e, f)
AttemptStep-left {s} (AttemptStep.connect_handled false e f) = ground (arith, e, f)

Attempts-left :
    {s : Attempt} {n : ℕ} {s' : Attempt}
    → Attempts s n s'
    → n + (left s'.timer + left s'.connect) ≤ left s.timer + left s.connect
Attempts-left Attempts.here = omega arith
Attempts-left (Attempts.next r t) = omega (arith, Attempts-left r, AttemptStep-left t)

progress_cases :
    (p : Progress) → (p ≡ handled) ⊎ ((p ≡ under_way) ⊎ ((error : Bool) × (p ≡ ended error)))
progress_cases under_way = inr (inl refl)
progress_cases (ended error) = inr (inr (error, refl))
progress_cases handled = inl refl

-- An operation that is not handled goes on.
goes_on : (s : Attempt) → IsOver s ⊎ ((s' : Attempt) × AttemptStep s s')
goes_on s = elim (progress_cases s.timer) [
  | inr (inl waits) ↦ inr (record s { timer = ended false }, AttemptStep.expired waits refl)
  | inr (inr (error, e)) ↦
      inr (on_timer error (record s { timer = handled }), AttemptStep.timer_handled error e refl)
  | inl t ↦ elim (progress_cases s.connect) [
    | inl c ↦ inl (t, c)
    | inr (inl waits) ↦
        inr (record s { connect = ended false }, AttemptStep.connect_ended false waits refl)
    | inr (inr (error, e)) ↦ inr (
      on_connected error (record s { connect = handled }),
      AttemptStep.connect_handled error e refl,
    )
  ]
]

-- How an attempt ends: connected with the socket open, and that line alone; or with the socket
-- closed and the deadline printed, and perhaps the other line before or behind it.
abbrev pub Ending : Attempt → Type 0
Ending s =
    ((s.is_open ≡ true) × (s.printed ≡ connected ∷ []))
    ⊎ ((s.is_open ≡ false)
        × ((s.printed ≡ timer_expired ∷ [])
            ⊎ ((s.printed ≡ timer_expired ∷ connected ∷ [])
                ⊎ (s.printed ≡ connected ∷ timer_expired ∷ []))))

-- io_context::run handles at most four steps. Either there is a next one, or both operations have
-- ended and their handlers have run; and then either the attempt has connected, the socket is open
-- and nothing else was printed, or the socket is closed and the deadline was printed, and whether
-- the attempt had connected does not matter.
pub Attempts-Ending :
    {n : ℕ} {s : Attempt}
    → Attempts new_attempt n s
    → (n ≤ 4) × ((IsOver s × Ending s) ⊎ ((s' : Attempt) × AttemptStep s s'))
unfolding Phases
Attempts-Ending {n} {s} r = (
  omega (arith, Attempts-left r),
  elim (goes_on s) [
    | inl over ↦ inl (over, ground (arith, over, Attempts-Phases r))
    | inr more ↦ inr more
  ],
)

-- The deadline has passed and the attempt has connected, and neither handler, or one, or both have
-- run.
IsRacing : Attempt → Type 0
IsRacing s =
    ((s.printed ≡ []) × (s.timer ≡ ended false) × (s.connect ≡ ended false))
    ⊎ (((s.printed ≡ timer_expired ∷ [])
          × (s.is_open ≡ false)
          × (s.timer ≡ handled)
          × (s.connect ≡ ended false))
        ⊎ (((s.printed ≡ connected ∷ []) × (s.timer ≡ ended false) × (s.connect ≡ handled))
            ⊎ ((s.is_open ≡ false)
                × ((s.printed ≡ timer_expired ∷ connected ∷ [])
                    ⊎ (s.printed ≡ connected ∷ timer_expired ∷ []))
                × (s.timer ≡ handled)
                × (s.connect ≡ handled))))

AttemptStep-IsRacing : {s s' : Attempt} → AttemptStep s s' → IsRacing s → IsRacing s'
unfolding IsRacing on_timer on_connected
AttemptStep-IsRacing (AttemptStep.expired e f) v = ground (arith, e, f, v)
AttemptStep-IsRacing (AttemptStep.connect_ended error e f) v = ground (arith, e, f, v)
AttemptStep-IsRacing (AttemptStep.timer_handled true e f) v = ground (arith, e, f, v)
AttemptStep-IsRacing (AttemptStep.timer_handled false e f) v = ground (arith, e, f, v)
AttemptStep-IsRacing (AttemptStep.connect_handled true e f) v = ground (arith, e, f, v)
AttemptStep-IsRacing (AttemptStep.connect_handled false e f) v = ground (arith, e, f, v)

Attempts-IsRacing :
    {s : Attempt} {n : ℕ} {s' : Attempt} → Attempts s n s' → IsRacing s → IsRacing s'
Attempts-IsRacing Attempts.here v = v
Attempts-IsRacing (Attempts.next r t) v = AttemptStep-IsRacing t (Attempts-IsRacing r v)

-- If the deadline passes and the attempt connects before either handler has run, the connected
-- socket is closed, whichever handler runs first: both lines are printed, since cancel does not
-- reach a handler that is queued.
pub both_in_time :
    {m n : ℕ} {s s' : Attempt}
    → Attempts new_attempt m s
    → s.timer ≡ ended false
    → s.connect ≡ ended false
    → Attempts s n s'
    → IsOver s'
    → (s'.is_open ≡ false)
      × ((s'.printed ≡ timer_expired ∷ connected ∷ [])
          ⊎ (s'.printed ≡ connected ∷ timer_expired ∷ []))
unfolding Phases IsRacing
both_in_time r t c after over =
    let v = Attempts-Phases r in
    ground (arith, over, Attempts-IsRacing after (ground (arith, v, t, c)))
