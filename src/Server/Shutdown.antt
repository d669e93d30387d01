-- ===== src/Server/Shutdown.antt =====
-- What server::hanlde_stop of src/http_server leaves, and what can still happen after it.
pub mod After
pub mod Handlers
pub mod Winding
pub mod Ending
pub mod Dangling
use learn_asio.Base.{
  ℕ, suc, ◌+◌, ◌≤◌, ◌<◌, ◌≡◌, ◌≢◌, refl, sym, ap, ◌∙◌, Bool, true, false, not, ◌&&◌, ◌||◌, Option,
  none, some, ◌⊎◌, inl, inr, List, [], ◌∷◌, ◌++◌, arith, Bytes, ◌==◌, ==_iff, ==_refl,
  if◌then◌else◌, Bool-cases,
}
use learn_asio.Base.Assoc.{Assoc}
use learn_asio.HttpParser.{HttpParser}
use learn_asio.Message.{MessageStatus, complete, want_more, faild, parse}
use learn_asio.Response.Date.{Tm}
use learn_asio.Server.{
  Connection, Socket, closed, shutdown, ErrorCode, success, operation_aborted, failure, Operation,
  accepting, waiting_signal, reading, writing, World, mem, stop, stop_each, stop_all, manager_stop,
  set_erase, handle_read, handle_write, hanlde_accept, hanlde_stop, take_bytes, new_server, store,
  refusal, answer,
}
use learn_asio.Server.Pending.{
  touches, ops_on, accepts, is_accepting, ops_on_middle, accepts_middle, mem-set_erase,
}
use learn_asio.Server.Steps.{Io, Serves, Step, Runs}
use learn_asio.Server.Fresh.{reads_on, reads_on_middle, reads_on-le, is_reading}
use learn_asio.Server.Invariant.{IsServing}
use learn_asio.Server.Serving.{Serves-IsServing, take_bytes-Rearms}

module _ {P : Type 0} where
  -- The loop of stop_all touches sockets only.
  stop_each_lem :
      (ps : List ℕ) (w : World P)
      → ((stop_each ps w).acceptor_open ≡ w.acceptor_open)
        × ((stop_each ps w).pending ≡ w.pending)
        × ((stop_each ps w).new_connection ≡ w.new_connection)
        × ((stop_each ps w).next ≡ w.next)
  unfolding stop_each
  stop_each_lem [] w = (refl, refl, refl, refl)
  stop_each_lem (p ∷ ps) w = stop_each_lem ps (stop p w)

  -- The connections of the loop are closed at its end, and all others are as they were.
  socket_stop_each :
      (ps : List ℕ) (w : World P) (q : ℕ)
      → ((stop_each ps w).heap q).socket ≡ (if mem q ps then closed else (w.heap q).socket)
  unfolding stop_each
  socket_stop_each [] w q = refl
  socket_stop_each (p ∷ ps) w q =
      ground (arith, socket_stop_each ps (stop p w) q, ==_iff p q, ==_iff q p)

  request_stop_each :
      (ps : List ℕ) (w : World P) (q : ℕ) → ((stop_each ps w).heap q).request ≡ (w.heap q).request
  unfolding stop_each
  request_stop_each [] w q = refl
  request_stop_each (p ∷ ps) w q = ground (arith, request_stop_each ps (stop p w) q, ==_iff q p)

  pub request-hanlde_stop :
      (w : World P) (q : ℕ) → ((hanlde_stop w).heap q).request ≡ (w.heap q).request
  unfolding hanlde_stop
  request-hanlde_stop w q = request_stop_each w.connections (record w { acceptor_open = false }) q

  -- The handler of a signal closes the acceptor and exactly the sockets of the connections that
  -- the manager holds, empties the manager's set, and leaves every operation under way and the
  -- connection that the next accept was to fill.
  pub hanlde_stop_lem :
      (w : World P) (q : ℕ)
      → let w' = hanlde_stop w in
        (w'.acceptor_open ≡ false)
        × (w'.connections ≡ [])
        × (w'.pending ≡ w.pending)
        × (w'.new_connection ≡ w.new_connection)
        × ((w'.heap q).socket ≡ (if mem q w.connections then closed else (w.heap q).socket))
  unfolding hanlde_stop
  hanlde_stop_lem w q =
      let w0 = record w { acceptor_open = false } in
      let kept = stop_each_lem w.connections w0 in
      (kept.0, refl, kept.1, kept.2, socket_stop_each w.connections w0 q)
