-- ===== src/Logging.antt =====
-- The log of common/log.hpp: ScopeTrace, which the macro TRACE puts at the start of a function, and
-- Log, of which make_singleton (common/singleton.h) makes one.
use learn_asio.Base.{
  ◌≡◌, refl, sym, ap, ◌∙◌, Bool, true, false, ◌&&◌, List, [], ◌∷◌, ◌++◌, append_assoc, append-nil,
  Bytes, beq, beq_refl, if◌then◌else◌,
}

-- A line of the log; a scope has the name of its function.
pub data LogLine : Type 0 where
  app_started app_terminated : LogLine
  scope_begins scope_ends : Bytes → LogLine

-- The functions with a TRACE that a function calls, one after the other, with those that they call;
-- an exception that is caught only leaves out the calls behind it, since ~ScopeTrace runs all the
-- same. All of it is on one thread.
pub data Calls : Type 0 where
  no_call : Calls
  traced : Bytes → Calls → Calls → Calls

-- What ScopeTrace logs of them.
unfoldable pub trace : Calls → List LogLine
trace no_call = []
trace (traced name inside rest) = scope_begins name ∷ trace inside ++ scope_ends name ∷ trace rest

-- Whether the static instance of Log was constructed, and the log.
pub record Logging : Type 0 where
  pub constructed : Bool
  pub lines : List LogLine

-- make_singleton<Log>: the static instance is constructed by the first call.
unfoldable pub make_singleton : Logging → Logging
make_singleton s =
    if s.constructed then s else record { constructed = true; lines = s.lines ++ app_started ∷ [] }

-- What main does, as far as the log sees it.
pub data Act : Type 0 where
  make_log : Act
  run_calls : Calls → Act

unfoldable pub run_acts : List Act → Logging → Logging
unfolding make_singleton trace
run_acts [] s = s
run_acts (make_log ∷ acts) s = run_acts acts (make_singleton s)
run_acts (run_calls cs ∷ acts) s = run_acts acts (record s { lines = s.lines ++ trace cs })

-- ~Log at the end of the process, if there is an instance.
unfoldable pub exit_process : Logging → List LogLine
exit_process s = if s.constructed then s.lines ++ app_terminated ∷ [] else s.lines

abbrev traces : List Act → List LogLine
traces [] = []
traces (make_log ∷ acts) = traces acts
traces (run_calls cs ∷ acts) = trace cs ++ traces acts

run_acts-lines :
    (acts : List Act) (ls : List LogLine)
    → run_acts acts (record { constructed = true; lines = ls })
      ≡ record { constructed = true; lines = ls ++ traces acts }
unfolding run_acts make_singleton
run_acts-lines [] ls = ap (λ l. record { constructed = true; lines = l }) (sym (append-nil ls))
run_acts-lines (make_log ∷ acts) ls = run_acts-lines acts ls
run_acts-lines (run_calls cs ∷ acts) ls =
    run_acts-lines acts (ls ++ trace cs)
    ∙ ap (λ l. record { constructed = true; lines = l }) (append_assoc ls (trace cs) (traces acts))

-- Whether every scope that ends is the one that began last and has not ended yet; the names are
-- those of the scopes that have not ended.
abbrev is_nested : List Bytes → List LogLine → Bool
is_nested [] [] = true
is_nested (n ∷ ns) [] = false
is_nested ns (app_started ∷ ls) = is_nested ns ls
is_nested ns (app_terminated ∷ ls) = is_nested ns ls
is_nested ns (scope_begins n ∷ ls) = is_nested (n ∷ ns) ls
is_nested [] (scope_ends m ∷ ls) = false
is_nested (n ∷ ns) (scope_ends m ∷ ls) = beq n m && is_nested ns ls

is_nested-trace :
    (cs : Calls) (ns : List Bytes) (ls : List LogLine)
    → is_nested ns (trace cs ++ ls) ≡ is_nested ns ls
unfolding trace
is_nested-trace no_call ns ls = refl
is_nested-trace (traced name inside rest) ns ls =
    ap (is_nested (name ∷ ns)) (append_assoc (trace inside) (scope_ends name ∷ trace rest) ls)
    ∙ is_nested-trace inside (name ∷ ns) (scope_ends name ∷ (trace rest ++ ls))
    ∙ ap (λ b. b && is_nested ns (trace rest ++ ls)) (beq_refl name)
    ∙ is_nested-trace rest ns ls

is_nested-traces :
    (acts : List Act) (ls : List LogLine) → is_nested [] (traces acts ++ ls) ≡ is_nested [] ls
is_nested-traces [] ls = refl
is_nested-traces (make_log ∷ acts) ls = is_nested-traces acts ls
is_nested-traces (run_calls cs ∷ acts) ls =
    ap (is_nested []) (append_assoc (trace cs) (traces acts) ls)
    ∙ is_nested-trace cs [] (traces acts ++ ls)
    ∙ is_nested-traces acts ls

-- A program that makes the log first, and however often after that: the log is its start, the scopes
-- of what was called, well nested, and its end, each of the two once.
run_acts-is_nested :
    (acts : List Act)
    → let log =
        exit_process (run_acts (make_log ∷ acts) (record { constructed = false; lines = [] })) in
      (log ≡ app_started ∷ traces acts ++ app_terminated ∷ []) × (is_nested [] log ≡ true)
unfolding run_acts make_singleton exit_process
run_acts-is_nested acts =
    let log = ap exit_process (run_acts-lines acts (app_started ∷ [])) in
    (log, ap (is_nested []) log ∙ is_nested-traces acts (app_terminated ∷ []))
