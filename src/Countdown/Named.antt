-- ===== src/Countdown/Named.antt =====
-- The two timers of src/basics/timer2.cpp, whose handlers log a name.
use learn_asio.Base.{
  ℕ, suc, ◌+◌, ◌*◌, ◌≤◌, ◌≡◌, ◌⊎◌, inl, inr, refl, Bool, true, false, List, [], ◌∷◌, ◌++◌, arith,
}
use learn_asio.Countdown.{second}

pub data Name : Type 0 where
  async_timer sync_timer : Name

-- What the program logs: the four texts of main, what TRACE logs on entry and at the end, and the
-- line of a handler.
pub data LogMessage : Type 0 where
  context_created async_timer_ready sync_timer_ready begin_to_run : LogMessage
  entered left : LogMessage
  handle : Name → LogMessage

-- The expiry of both timers, whether their waits are under way, and the log.
pub record Timers : Type 0 where
  pub expiry : ℕ
  pub expiry1 : ℕ
  pub is_waiting : Bool
  pub is_waiting1 : Bool
  pub messages : List LogMessage

-- handler
unfoldable pub handler : Name → Timers → Timers
handler name t = record t { messages = t.messages ++ entered ∷ handle name ∷ left ∷ [] }

-- main up to io_context::run, with the times at which the two timers are set
unfoldable pub timers_set : ℕ → ℕ → Timers
timers_set now now1 = record {
  expiry = now + second;
  expiry1 = now1 + 2 * second;
  is_waiting = true;
  is_waiting1 = true;
  messages = context_created ∷ async_timer_ready ∷ sync_timer_ready ∷ begin_to_run ∷ [];
}

-- The states after a number of handlers in io_context::run; of two waits the one whose timer expires
-- first ends first.
pub data Handles (now now1 : ℕ) : ℕ → Timers → Type 0 where
  here : Handles now now1 0 (timers_set now now1)
  fired :
      {n : ℕ} {t : Timers}
      → Handles now now1 n t
      → t.is_waiting ≡ true
      → (t.is_waiting1 ≡ true → t.expiry ≤ t.expiry1)
      → Handles now now1 (suc n) (handler async_timer (record t { is_waiting = false }))
  fired1 :
      {n : ℕ} {t : Timers}
      → Handles now now1 n t
      → t.is_waiting1 ≡ true
      → (t.is_waiting ≡ true → t.expiry1 ≤ t.expiry)
      → Handles now now1 (suc n) (handler sync_timer (record t { is_waiting1 = false }))

abbrev start_messages : List LogMessage
start_messages = context_created ∷ async_timer_ready ∷ sync_timer_ready ∷ begin_to_run ∷ []

abbrev pub all_messages : List LogMessage
all_messages =
    start_messages
    ++ (entered ∷ handle async_timer ∷ left ∷ entered ∷ handle sync_timer ∷ left ∷ [])

record IsHandling (now now1 n : ℕ) (t : Timers) : Type 0 where
  same : t.expiry ≡ now + second
  same1 : t.expiry1 ≡ now1 + 2 * second
  either :
      ((n ≡ 0) × (t.is_waiting ≡ true) × (t.is_waiting1 ≡ true) × (t.messages ≡ start_messages))
      ⊎ (((n ≡ 1)
            × (t.is_waiting ≡ false)
            × (t.is_waiting1 ≡ true)
            × (t.messages ≡ start_messages ++ entered ∷ handle async_timer ∷ left ∷ []))
          ⊎ ((n ≡ 2)
              × (t.is_waiting ≡ false)
              × (t.is_waiting1 ≡ false)
              × (t.messages ≡ all_messages)))

Handles-IsHandling :
    {now now1 n : ℕ} {t : Timers} → now ≤ now1 → Handles now now1 n t → IsHandling now now1 n t
unfolding timers_set handler
Handles-IsHandling ordered Handles.here = record {
  same = refl;
  same1 = refl;
  either = inl (refl, refl, refl, refl);
}
Handles-IsHandling ordered (Handles.fired h w first) =
    let v = Handles-IsHandling ordered h in
    record { same = v.same; same1 = v.same1; either = ground (arith, v.either, w) }
Handles-IsHandling ordered (Handles.fired1 h w first) =
    let v = Handles-IsHandling ordered h in
    record {
      same = v.same;
      same1 = v.same1;
      either = ground (arith, v.either, w, first, v.same, v.same1, ordered);
    }

-- If the first timer is set no later than the second one, two handlers run, that of "async timer"
-- first, each between the two lines of its TRACE and after the four lines of main.
pub Handles-ends :
    {now now1 n : ℕ} {t : Timers}
    → now ≤ now1
    → Handles now now1 n t
    → (n ≤ 2)
      × (((t' : Timers) × Handles now now1 (suc n) t') ⊎ ((n ≡ 2) × (t.messages ≡ all_messages)))
Handles-ends {now} {now1} {n} {t} ordered h =
    let v = Handles-IsHandling ordered h in
    (
      ground (arith, v.either),
      elim v.either [
        | inl (zero_run, w, w1, m) ↦
            inl (_, Handles.fired h w (λ _. omega (arith, v.same, v.same1, ordered)))
        | inr (inl (one_run, w, w1, m)) ↦ inl (_, Handles.fired1 h w1 (λ e. ground (arith, e, w)))
        | inr (inr (two_run, w, w1, m)) ↦ inr (two_run, m)
      ],
    )
