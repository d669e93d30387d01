-- ===== src/Signals.antt =====
-- The two programs that wait for a signal: src/basics/signal.cpp and tutorial/105.signal.cpp.
use learn_asio.Base.{
  ℕ, ◌-◌, ◌≡◌, refl, ap, ◌∙◌, Option, none, some, List, [], ◌∷◌, ◌++◌, Bytes, codes, ◌==◌,
  if◌then◌else◌,
}
use learn_asio.Base.Decimal.{to_decimal}

-- The signals that the handlers tell apart, and all others.
pub data Signal : Type 0 where
  sigint sigterm sigill : Signal
  other : ℕ → Signal

-- Their numbers on Linux.
abbrev pub signal_number : Signal → ℕ
signal_number sigint = 2
signal_number sigterm = 15
signal_number sigill = 4
signal_number (other n) = n

-- The two static counters of signal_handler, the waits under way, and what was printed.
pub record Waiting : Type 0 where
  pub int_num : ℕ
  pub term_num : ℕ
  pub waits : ℕ
  pub printed : Bytes

abbrev got_signal : Bytes → ℕ → Bytes
got_signal name num =
    codes "got signal " ++ name ++ codes " " ++ to_decimal num ++ codes " times" ++ 10 ∷ []

-- signal_handler of signal.cpp; it ignores the text of an error
unfoldable pub signal_handler : Option Bytes → Signal → Waiting → Waiting
signal_handler (some error) caught s = s
signal_handler none sigint s = record s {
  printed = s.printed ++ got_signal (codes "SIGINT") s.int_num;
}
signal_handler none sigterm s = record s {
  printed = s.printed ++ got_signal (codes "SIGTERM") s.term_num;
}
signal_handler none sigill s = s
signal_handler none (other n) s = s

abbrev error_line : Option Bytes → Bytes
error_line none = []
error_line (some message) = codes "Error: " ++ message ++ 10 ∷ []

-- The switch of 105.
abbrev signal_line : Signal → Bytes
signal_line sigill = codes "Illegal instruction\n"
signal_line sigint = codes "Interrupted\n"
signal_line sigterm = codes "Terminated\n"
signal_line (other n) = []

-- handler of 105
unfoldable pub handler : Option Bytes → Signal → Waiting → Waiting
handler ec caught s = record s {
  printed =
      s.printed
      ++ codes "Caught signal: "
      ++ to_decimal (signal_number caught)
      ++ 10 ∷ error_line ec
      ++ signal_line caught;
}

-- main up to io_context::run, in both programs
abbrev pub waiting : Waiting
waiting = record { int_num = 0; term_num = 0; waits = 1; printed = [] }

-- io_context::run while the wait ends with such errors and signals, one after the other. It returns
-- when no wait is left, and then nothing is handled any more.
unfoldable pub run :
    (Option Bytes → Signal → Waiting → Waiting) → List (Option Bytes × Signal) → Waiting → Waiting
run h [] s = s
run h ((ec, caught) ∷ rest) s =
    let more = run h rest (h ec caught (record s { waits = s.waits - 1 })) in
    if s.waits == 0 then s else more

run-over :
    (h : Option Bytes → Signal → Waiting → Waiting) (rest : List (Option Bytes × Signal))
    (s : Waiting)
    → s.waits ≡ 0
    → run h rest s ≡ s
unfolding run
run-over h [] s e = refl
run-over h (x ∷ rest) s e = rw e refl

handler-waits :
    (ec : Option Bytes) (caught : Signal) (s : Waiting)
    → ((signal_handler ec caught s).waits ≡ s.waits)
      × ((signal_handler ec caught s).int_num ≡ s.int_num)
      × ((signal_handler ec caught s).term_num ≡ s.term_num)
unfolding signal_handler
handler-waits (some error) caught s = (refl, refl, refl)
handler-waits none sigint s = (refl, refl, refl)
handler-waits none sigterm s = (refl, refl, refl)
handler-waits none sigill s = (refl, refl, refl)
handler-waits none (other n) s = (refl, refl, refl)

-- Of all the signals, both programs handle the first one only; and signal.cpp leaves its two
-- counters at zero.
run_once :
    (ec : Option Bytes) (caught : Signal) (rest : List (Option Bytes × Signal))
    → let s = record waiting { waits = 0 } in
      let s' = run signal_handler ((ec, caught) ∷ rest) waiting in
      (s' ≡ signal_handler ec caught s)
      × (s'.int_num ≡ 0)
      × (s'.term_num ≡ 0)
      × (run handler ((ec, caught) ∷ rest) waiting ≡ handler ec caught s)
unfolding run handler
run_once ec caught rest =
    let s = record waiting { waits = 0 } in
    let kept = handler-waits ec caught s in
    let over : run signal_handler ((ec, caught) ∷ rest) waiting ≡ signal_handler ec caught s =
      run-over signal_handler rest (signal_handler ec caught s) kept.0 in
    (
      over,
      ap (λ x. x.int_num) over ∙ kept.1,
      ap (λ x. x.term_num) over ∙ kept.2,
      run-over handler rest (handler ec caught s) refl,
    )
