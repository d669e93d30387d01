-- ===== src/Tests/Servers.antt =====
-- The theorems on the HTTP server at a state with one client.
use mathlib.Core.List.{Perm}
use mathlib.Core.List.Perm
use learn_asio.Base.{◌≡◌, refl, ◌↔◌, true, false, none, List, [], ◌∷◌, arith, Bytes, codes}
use learn_asio.Message.{complete, faild, parse, new_message}
use learn_asio.Response.Texts.{ok}
use learn_asio.Response.Status.{status_line}
use learn_asio.Server.{
  success, operation_aborted, accepting, waiting_signal, reading, writing, World, mem,
  manager_start, handle_read, handle_write, hanlde_accept, hanlde_stop, respond, refusal,
  new_server, start_accept,
}
use learn_asio.Server.Pending.{ops_on}
use learn_asio.Server.Steps.{Io, Serves, Step, Runs}
use learn_asio.Server.Invariant.{IsServing}
use learn_asio.Server.Serving.{connect, Serves-IsServing}
use learn_asio.Server.Replies.{served, Delivers, handle_read_complete}
use learn_asio.Server.Accepting.{hanlde_accept_throws}
use learn_asio.Server.Finished.{finished_stays}
use learn_asio.Server.Shutdown.After.{IsAfter, Runs-IsAfter}
use learn_asio.Server.Shutdown.Dangling.{IsOwned, hanlde_stop_dangles, aborted_read_dangles}
use learn_asio.Tests.Toy.{toy, Phase}
use learn_asio.Tests.Responses.{some_day, same_order}

abbrev pub started : World Phase
started = new_server toy same_order

-- The first accept succeeded, and the client's connection is 0.
abbrev pub one_client : World Phase
one_client =
    start_accept toy same_order (
      manager_start 0 (connect toy same_order 0 (record started { pending = waiting_signal ∷ [] })))

pub one_client_reached : Serves toy same_order started one_client
unfolding new_server hanlde_accept
one_client_reached =
    Serves.next Serves.here (Io.accepted [] (waiting_signal ∷ []) success false refl refl)

-- Its request arrives whole, and it is answered.
abbrev quiet : World Phase
quiet = record one_client { pending = accepting ∷ waiting_signal ∷ [] }

abbrev answering : World Phase
answering = handle_read toy same_order success some_day 0 (codes "G/a") quiet

pub one_client_pending : one_client.pending ≡ accepting ∷ reading 0 ∷ waiting_signal ∷ []
unfolding start_accept manager_start new_server
one_client_pending = refl

answering_reached : Serves toy same_order started answering
answering_reached = Serves.next one_client_reached (
    Io.read (accepting ∷ []) (waiting_signal ∷ []) success some_day 0 (codes "G/a")
      one_client_pending (omega arith) refl)

Serves-IsServing_example : IsServing answering
Serves-IsServing_example = Serves-IsServing toy same_order answering_reached

pub perm_same : (m : List (Bytes × Bytes)) → Perm (same_order m) m
perm_same m = Perm.refl m

parse_complete : (parse toy (one_client.heap 0).request (codes "G/a")).message_status ≡ complete
unfolding parse start_accept manager_start new_server new_message
parse_complete = refl

handle_read_complete_example :
    let m = parse toy (one_client.heap 0).request (codes "G/a") in
    (buffers : List Bytes) × (answering.pending
      ≡ writing 0 buffers ∷ accepting ∷ waiting_signal ∷ [])
    × Delivers some_day (served toy same_order m.method) (status_line ok) buffers
handle_read_complete_example =
    handle_read_complete toy same_order perm_same (accepting ∷ []) (waiting_signal ∷ []) some_day 0
      (codes "G/a") one_client_reached one_client_pending parse_complete

hanlde_accept_throws_example :
    (hanlde_accept toy same_order success true
        (record one_client { pending = reading 0 ∷ waiting_signal ∷ [] })
      ≡ none)
    ↔ ((success ≡ success) × (true ≡ true))
hanlde_accept_throws_example =
    hanlde_accept_throws toy same_order [] (reading 0 ∷ waiting_signal ∷ []) success true
      one_client_reached one_client_pending

-- The buffers of the answer.
abbrev answer_buffers : List Bytes
answer_buffers =
    (respond toy same_order some_day (record (one_client.heap 0) {
      request = parse toy (one_client.heap 0).request (codes "G/a");
    })).1

answering_pending : answering.pending ≡ writing 0 answer_buffers ∷ accepting ∷ waiting_signal ∷ []
unfolding handle_read parse start_accept manager_start new_server new_message
answering_pending = refl

-- The answer is written, and the next client comes.
abbrev answered : World Phase
answered =
    handle_write success false 0 (record answering { pending = accepting ∷ waiting_signal ∷ [] })

finished_stays_example : (mem 0 answered.connections ≡ true) × (ops_on 0 answered.pending ≡ 0)
finished_stays_example =
    finished_stays toy same_order [] (accepting ∷ waiting_signal ∷ []) false 0 answer_buffers
      answering_reached answering_pending Serves.here

-- The signal's own operation is taken out before its handler runs.
abbrev signalled : World Phase
signalled = record one_client { pending = accepting ∷ reading 0 ∷ [] }

Runs-IsAfter_example : IsAfter signalled (
    handle_read toy same_order operation_aborted some_day 0 []
      (record (hanlde_stop signalled) { pending = accepting ∷ [] }))
unfolding hanlde_stop start_accept manager_start new_server
Runs-IsAfter_example = Runs-IsAfter toy same_order (
    Runs.next Runs.here (
      Step.io
        (Io.read (accepting ∷ []) [] operation_aborted some_day 0 [] refl (omega arith) refl)))

hanlde_stop_dangles_example :
    let w' =
      hanlde_stop (record answering { pending = writing 0 answer_buffers ∷ accepting ∷ [] }) in
    (w'.pending ≡ writing 0 answer_buffers ∷ accepting ∷ []) × ¬ IsOwned w' 0
hanlde_stop_dangles_example =
    hanlde_stop_dangles toy same_order (writing 0 answer_buffers ∷ accepting ∷ []) [] []
      (accepting ∷ []) 0 answer_buffers answering_reached answering_pending refl

-- A part of the request has arrived.
abbrev halfway : World Phase
halfway = handle_read toy same_order success some_day 0 (codes "+a") quiet

halfway_reached : Serves toy same_order started halfway
halfway_reached = Serves.next one_client_reached (
    Io.read (accepting ∷ []) (waiting_signal ∷ []) success some_day 0 (codes "+a")
      one_client_pending (omega arith) refl)

halfway_pending : halfway.pending ≡ reading 0 ∷ accepting ∷ waiting_signal ∷ []
unfolding handle_read parse start_accept manager_start new_server new_message
halfway_pending = refl

end_refused : (parse toy (halfway.heap 0).request []).message_status ≡ faild
unfolding handle_read parse start_accept manager_start new_server new_message
end_refused = refl

aborted_read_dangles_example :
    let w' = hanlde_stop (record halfway { pending = reading 0 ∷ accepting ∷ [] }) in
    let w'' =
      handle_read toy same_order operation_aborted some_day 0 []
        (record w' { pending = accepting ∷ [] }) in
    (w''.pending ≡ writing 0 (refusal toy same_order some_day) ∷ accepting ∷ []) × ¬ IsOwned w'' 0
aborted_read_dangles_example =
    aborted_read_dangles toy same_order (reading 0 ∷ accepting ∷ []) [] [] (accepting ∷ []) 0
      some_day halfway_reached halfway_pending refl end_refused
