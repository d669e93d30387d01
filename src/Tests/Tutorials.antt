-- ===== src/Tests/Tutorials.antt =====
-- The theorems on the small programs of tutorial at concrete runs.
use learn_asio.Base.{
  Bytes, List, [], codes, false, if◌then◌else◌, none, refl, some, suc, true, zero, ℕ, ◌==◌, ◌∷◌,
  ◌≡◌, ◌≤◌, ◌<◌, ◌⊎◌, inr,
}
use learn_asio.Deadline.{
  Attempt, new_attempt, Attempts, AttemptStep, Ending, IsOver, ended, handled, on_timer,
  on_connected, timer_expired, connected, Attempts-Ending, both_in_time,
}
use learn_asio.Hello.{hello_text, hello_each, hello_round, print_received}
use learn_asio.CString.{c_string}
use learn_asio.Signals.{run, signal_handler, sigint, sigterm, waiting}
use learn_asio.Base.Decimal.{to_decimal}
use learn_asio.Echo.{talk, talk_echoed}
use learn_asio.IoContextGroup.{new_group, emplace_each}
use learn_asio.IoContextGroup.Running.{
  Running, start_threads, Joins, RunStep, is_held, Joins-threads,
}

-- The deadline passes, the attempt connects, and the timer's handler runs first.
abbrev passed : Attempt
passed = record new_attempt { timer = ended false }

abbrev both_ended : Attempt
both_ended = record passed { connect = ended false }

abbrev closed_late : Attempt
closed_late =
    on_connected false
      (record (on_timer false (record both_ended { timer = handled })) { connect = handled })

both_ended_reached : Attempts new_attempt 2 both_ended
both_ended_reached =
    Attempts.next (Attempts.next Attempts.here (AttemptStep.expired refl refl))
      (AttemptStep.connect_ended false refl refl)

closed_late_reached : Attempts both_ended 2 closed_late
unfolding on_timer on_connected
closed_late_reached =
    Attempts.next (Attempts.next Attempts.here (AttemptStep.timer_handled false refl refl))
      (AttemptStep.connect_handled false refl refl)

Attempts-Ending_example :
    (2 ≤ 4) × ((IsOver both_ended × Ending both_ended) ⊎ ((s : Attempt) × AttemptStep both_ended s))
Attempts-Ending_example = Attempts-Ending both_ended_reached

both_in_time_example :
    (closed_late.is_open ≡ false)
    × ((closed_late.printed ≡ timer_expired ∷ connected ∷ [])
        ⊎ (closed_late.printed ≡ connected ∷ timer_expired ∷ []))
unfolding on_timer on_connected
both_in_time_example = both_in_time both_ended_reached refl refl closed_late_reached (refl, refl)

abbrev spaces : ℕ → Bytes
spaces zero = []
spaces (suc n) = 32 ∷ spaces n

-- Two words, each into an array that held spaces.
abbrev two_words : List (Bytes × Bytes)
two_words = (spaces 128, codes "hello") ∷ (spaces 128, codes "world") ∷ []

talk_echoed_example : talk (λ d. d) two_words ≡ some (codes "hello" ∷ codes "world" ∷ [])
talk_echoed_example = talk_echoed (λ d. d) (λ d size. refl) two_words refl

-- Three contexts, of which one is given a handler, which stops it.
abbrev busy : ℕ → ℕ
busy p = if p == 1 then 1 else 0

abbrev three_threads : Running
three_threads = start_threads (λ p. 0) (new_group 3)

Joins-threads_example :
    let r = record three_threads { work = busy; threads = 0 ∷ 2 ∷ []; stopped = 1 ∷ [] } in
    (r.group.size ≡ 3)
    × (r.group.work_guards ≡ (new_group 3).work_guards)
    × ((p : ℕ) → p < 3 → (is_held p r.threads ≡ true) ⊎ (is_held p r.stopped ≡ true))
unfolding start_threads new_group emplace_each
Joins-threads_example =
    Joins-threads 3 (λ p. 0)
      (Joins.next
        (Joins.next (Joins.next Joins.here (RunStep.worked busy refl)) (RunStep.stop_called 1 refl))
        (RunStep.returned (0 ∷ []) (2 ∷ []) 1 refl (inr refl) refl))

-- Two signals come; the first one is reported, with the count that never grows.
two_signals :
    (run signal_handler ((none, sigint) ∷ (none, sigterm) ∷ []) waiting).printed
    ≡ codes "got signal SIGINT 0 times\n"
unfolding run signal_handler to_decimal
two_signals = refl

-- The first client is served, and the write to the second one fails after five bytes.
two_visits :
    hello_each (
      record { socket = 3; accepts = true; has_peer = true; cut = none }
      ∷ record { socket = 4; accepts = true; has_peer = true; cut = some 5 }
      ∷ [])
    ≡ ((3, hello_text) ∷ (4, codes "Hello") ∷ [], true)
unfolding hello_each hello_round
two_visits = refl

-- The client prints the text up to the NUL.
whole_text : print_received hello_text ≡ some (codes "Received: Hello, world!\n\n")
unfolding print_received c_string
whole_text = refl
