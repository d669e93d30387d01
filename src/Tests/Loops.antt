-- ===== src/Tests/Loops.antt =====
-- The theorems on the counting timers, on the group of contexts and on the HTTP client of
-- tutorial/110.http_client.cpp after a few steps.
use learn_asio.Application.{
  Application, new_application, idle, on_resolve, on_connect, on_write, on_read, Fetches, is_busy,
  Fetches-printed,
}
use learn_asio.EventLoop.{
  RunForever, run_forever, watchdog, after_run, in_run_one, restart, Forever, Forever-hangs,
}
use learn_asio.Printer.Unsynced.{Racing, new_racing, step1, step2, advance, Races}
use learn_asio.Logging.{
  app_started, app_terminated, scope_begins, scope_ends, traced, no_call, make_log, run_calls,
  run_acts, exit_process, make_singleton, trace,
}
use learn_asio.Base.{
  zero, some, ◌++◌, codes, ℕ, false, suc, ◌+◌, ◌≤◌, ◌≡◌, ◌⊎◌, refl, true, [], ◌∷◌, arith,
  if◌then◌else◌,
}
use learn_asio.Countdown.{handler, call, print, armed, expired, run, run_ends}
use learn_asio.WorkerServer.{
  Server, new_server, do_accept, start, do_read, on_accept, do_write, Serves,
}
use learn_asio.WorkerServer
use learn_asio.WorkerServer.Reads.{reads_once}
use mathlib.Core.List.{Perm}
use learn_asio.Printer.{Printer, k_count, new_printer, print1, print2, Ticks, Ticks-cnt}
use learn_asio.IoContextGroup.{
  IoContextGroup, new_group, emplace_each, query, uses, Queries, query_fair,
}

-- The first timer fired twice, then the second one.
abbrev three_ticks : Printer
three_ticks = print2 (print1 (print1 new_printer))

three_fired : Ticks 3 three_ticks
unfolding print1 print2
three_fired = Ticks.fired2 (Ticks.fired1 (Ticks.fired1 Ticks.here refl) refl) refl

abbrev fired : ℕ
fired = 3

Ticks-cnt_example :
    (fired ≤ 102)
    × (three_ticks.cnt ≤ k_count)
    × (3
        ≡ three_ticks.cnt
          + (if three_ticks.waiting1 then 0 else 1)
          + (if three_ticks.waiting2 then 0 else 1))
    × ((three_ticks.waiting1 ≡ true)
        ⊎ ((three_ticks.waiting2 ≡ true) ⊎ ((three_ticks.cnt ≡ k_count) × (fired ≡ 102))))
Ticks-cnt_example = Ticks-cnt three_fired

-- Three queries of two contexts give the places 0, 1 and 0.
abbrev three_queried : IoContextGroup
three_queried = record { size = 2; work_guards = 0 ∷ 1 ∷ []; index = 3 }

asked_three : Queries 2 (0 ∷ 1 ∷ 0 ∷ []) three_queried
unfolding query new_group emplace_each
asked_three = Queries.next 0 (Queries.next 1 (Queries.next 0 Queries.here refl) refl) refl

query_fair_example : uses 0 (0 ∷ 1 ∷ 0 ∷ []) ≤ suc (uses 1 (0 ∷ 1 ∷ 0 ∷ []))
query_fair_example = query_fair 0 1 asked_three (omega arith) (omega arith) (omega arith)

-- The host was found, the socket connected, the request sent, and two bytes received to the end.
abbrev fetched : Application
fetched =
    on_read true 2 (record new_application { stage = idle; is_open = true; response = 7 ∷ 8 ∷ [] })

two_fetched : Fetches (7 ∷ 8 ∷ []) fetched
unfolding on_resolve on_connect on_write
two_fetched =
    Fetches.received true (7 ∷ 8 ∷ [])
      (Fetches.sent false
        (Fetches.connected false true (Fetches.resolved false Fetches.here refl) refl) refl)
      refl

Fetches-printed_example :
    (fetched.printed ≡ 7 ∷ 8 ∷ [])
    × (fetched.response ≡ [])
    × ((fetched.is_open ≡ false) ⊎ (is_busy fetched.stage ≡ true))
Fetches-printed_example = Fetches-printed two_fetched

-- 203 has been woken, and waits in run_one.
abbrev hung : RunForever
hung = after_run (watchdog run_forever)

hung_reached : Forever 2 hung
unfolding run_forever watchdog after_run
hung_reached = Forever.run_returned (Forever.woken Forever.here refl) refl refl

Forever-hangs_example :
    (2 ≤ 2)
    × ((hung.printed ≡ []) ⊎ (hung.printed ≡ restart ∷ []))
    × (((s' : RunForever) × Forever 3 s')
        ⊎ ((◌≡◌ {A = ℕ} 2 2)
            × (hung.place ≡ in_run_one)
            × (hung.is_stopped ≡ false)
            × (hung.is_asleep ≡ false)))
Forever-hangs_example = Forever-hangs hung_reached

run_ends_example :
    (run handler 9 (armed 0 1 []) ≡ expired 5 5000000001 (0 ∷ 1 ∷ 2 ∷ 3 ∷ 4 ∷ []))
    × (run call 9 (armed 0 1 []) ≡ expired 5 5000000001 (0 ∷ 1 ∷ 2 ∷ 3 ∷ 4 ∷ []))
    × (run print 9 (armed 5 1 []) ≡ expired 0 5000000001 (5 ∷ 4 ∷ 3 ∷ 2 ∷ 1 ∷ []))
run_ends_example = run_ends 9 5 0 1 refl (omega arith)

-- A client came and sent a text, then another one came, and an accept failed.
abbrev two_workers : Server
two_workers = record { accepts = 0; reads = 2 ∷ []; closed = []; printed = codes "hello" ∷ [] }

worked : Serves (1 ∷ 2 ∷ []) ((1, some (codes "hello")) ∷ []) 1 two_workers
unfolding new_server do_accept on_accept start do_read WorkerServer.on_read do_write
worked =
    Serves.refused 3 0 false
      (Serves.accepted 2 0 false
        (Serves.read [] [] 1 (some (codes "hello"))
          (Serves.accepted 1 0 false Serves.here refl refl) refl)
        refl refl)
      refl refl

reads_once_example :
    (two_workers.accepts + 1 ≡ 1)
    × Perm ((1 ∷ []) ++ two_workers.reads) (1 ∷ 2 ∷ [])
    × (two_workers.printed ≡ codes "hello" ∷ [])
reads_once_example = reads_once worked

-- Without the strand: the first handler counts alone up to 99; then the second one passes its test,
-- the first one counts to 100, and the second one counts on to 101.
abbrev steps1 : ℕ → Racing → Racing
steps1 zero r = r
steps1 (suc n) r = steps1 n (step1 r)

steps1-Races : (n : ℕ) {r : Racing} → Races r → Races (steps1 n r)
steps1-Races zero s = s
steps1-Races (suc n) s = steps1-Races n (Races.stepped1 s)

abbrev past_limit : Racing
past_limit = step2 (step2 (steps1 3 (step2 (steps1 297 new_racing))))

past_limit_reached : Races past_limit
past_limit_reached =
    Races.stepped2 (Races.stepped2 (steps1-Races 3 (Races.stepped2 (steps1-Races 297 Races.here))))

past_limit_cnt : past_limit.cnt ≡ 101
unfolding step1 step2 advance
past_limit_cnt = refl

-- Both handlers pass their tests, and the first one loads.
abbrev both_tested : Racing
both_tested = step1 (step2 (step1 new_racing))

-- A log that is asked for twice is started once.
nested_log :
    exit_process (
      run_acts
        (make_log
          ∷ run_calls (traced (1 ∷ []) (traced (2 ∷ []) no_call no_call) no_call)
          ∷ make_log
          ∷ [])
        (record { constructed = false; lines = [] }))
    ≡ app_started
      ∷ scope_begins (1 ∷ [])
      ∷ scope_begins (2 ∷ [])
      ∷ scope_ends (2 ∷ [])
      ∷ scope_ends (1 ∷ [])
      ∷ app_terminated
      ∷ []
unfolding run_acts exit_process make_singleton trace
nested_log = refl
