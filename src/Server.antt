-- ===== src/Server.antt =====
-- The HTTP server of src/http_server: connection (connection.h, connection.cpp),
-- connection_manager (connection_manager.h, connection_manager.cpp) and server (server.h,
-- server.cpp), over one world: the connections on the heap, the manager's set, the acceptor, and
-- the asynchronous operations that are under way. Log lines are left out.
pub mod Pending
pub mod Steps
pub mod Invariant
pub mod Serving
pub mod Fresh
pub mod Replies
pub mod Received
pub mod Accepting
pub mod Finished
pub mod Shutdown
use learn_asio.Base.{
  ℕ, suc, ◌+◌, Bool, true, false, ◌||◌, Option, none, some, List, [], ◌∷◌, ◌++◌, Bytes, ◌==◌,
  if◌then◌else◌,
}
use learn_asio.Base.Assoc.{Assoc}
use learn_asio.HttpParser.{HttpParser}
use learn_asio.Message.{
  Message, MessageStatus, complete, want_more, faild, Method, get, post, put, del, invalid, parse,
  new_message,
}
use learn_asio.Response.{Response, stock_response, default_response, to_buffers}
use learn_asio.Response.Texts.{bad_request}
use learn_asio.Response.Date.{Tm}
use learn_asio.RequestHandler.{on_get, on_post, on_put, on_delete}

-- asio::error_code, as far as the handlers tell its values apart.
pub data ErrorCode : Type 0 where
  success operation_aborted : ErrorCode
  failure : ℕ → ErrorCode

-- A socket of the program: not yet open, connected, shut down in both directions, or closed.
pub data Socket : Type 0 where
  unopened connected shut closed : Socket

-- Only a connected socket is shut down.
abbrev pub shut_down : Socket → Socket
shut_down connected = shut
shut_down unopened = unopened
shut_down shut = shut
shut_down closed = closed

-- class connection. buffer_ is the argument `bytes` of handle_read.
pub record Connection (P : Type 0) : Type 0 where
  pub socket : Socket
  pub request : Message P
  pub response : Response P

-- An operation that was started and whose handler has not run yet. A pointer is a number.
pub data Operation : Type 0 where
  accepting waiting_signal : Operation
  reading : ℕ → Operation
  writing : ℕ → List Bytes → Operation

-- The objects of class server and all that they reach.
pub record World (P : Type 0) : Type 0 where
  pub heap : ℕ → Connection P
  pub next : ℕ  -- the pointer that make_shared returns next
  pub connections : List ℕ  -- connection_manager_.connections_
  pub new_connection : Option ℕ  -- null before the constructor's start_accept
  pub acceptor_open : Bool
  pub pending : List Operation

abbrev pub mem : ℕ → List ℕ → Bool
mem p [] = false
mem p (q ∷ qs) = q == p || mem p qs

-- std::set::insert
unfoldable pub set_insert : ℕ → List ℕ → List ℕ
set_insert p qs = if mem p qs then qs else p ∷ qs

-- std::set::erase
unfoldable pub set_erase : ℕ → List ℕ → List ℕ
set_erase p [] = []
set_erase p (q ∷ qs) = let rest = set_erase p qs in if q == p then rest else q ∷ rest

module _ {P : Type 0} where
  abbrev pub update : (ℕ → Connection P) → ℕ → Connection P → ℕ → Connection P
  update h p c q = if q == p then c else h q

  abbrev pub store : ℕ → Connection P → World P → World P
  store p c w = record w { heap = update w.heap p c }

  abbrev pub begin : Operation → World P → World P
  begin op w = record w { pending = op ∷ w.pending }

  -- connection::start
  unfoldable pub start : ℕ → World P → World P
  start p w = begin (reading p) w

  -- connection::stop
  unfoldable pub stop : ℕ → World P → World P
  stop p w = store p (record (w.heap p) { socket = closed }) w

  -- connection_manager::start
  unfoldable pub manager_start : ℕ → World P → World P
  unfolding start set_insert
  manager_start p w = start p (record w { connections = set_insert p w.connections })

  -- connection_manager::stop
  unfoldable pub manager_stop : ℕ → World P → World P
  unfolding stop set_erase
  manager_stop p w = let w' = stop p w in record w' { connections = set_erase p w'.connections }

  -- The loop of connection_manager::stop_all.
  unfoldable pub stop_each : List ℕ → World P → World P
  unfolding stop
  stop_each [] w = w
  stop_each (p ∷ ps) w = stop_each ps (stop p w)

  -- connection_manager::stop_all
  unfoldable pub stop_all : World P → World P
  unfolding stop_each
  stop_all w = let w' = stop_each w.connections w in record w' { connections = [] }

  -- connection::dispatch; its default leaves the response as it is
  unfoldable pub dispatch : Method → Connection P → Connection P
  unfolding on_get on_post on_put on_delete
  dispatch get c = record c { response = on_get c.request c.response }
  dispatch post c = record c { response = on_post c.request c.response }
  dispatch put c = record c { response = on_put c.request c.response }
  dispatch del c = record c { response = on_delete c.request c.response }
  dispatch invalid c = c

  -- socket_.shutdown(shutdown_both); an exception is caught in handle_write and changes nothing
  unfoldable pub shutdown : Bool → Connection P → Connection P
  shutdown true c = c
  shutdown false c = record c { socket = shut_down c.socket }

  -- connection::handle_write of a connection that still exists; `throws` says whether the call of
  -- shutdown throws. The handler of the write does not keep it: once a signal was handled, it may be
  -- destroyed, and then run_handler of Server/Shutdown has no result.
  unfoldable pub handle_write : ErrorCode → Bool → ℕ → World P → World P
  unfolding manager_stop shutdown
  handle_write (failure e) throws p w = manager_stop p w
  handle_write operation_aborted throws p w = store p (shutdown throws (w.heap p)) w
  handle_write success throws p w = store p (shutdown throws (w.heap p)) w

  -- server::hanlde_stop; the error and the signal are only logged
  unfoldable pub hanlde_stop : World P → World P
  unfolding stop_all
  hanlde_stop w = stop_all (record w { acceptor_open = false })

module _ (H : HttpParser) (order : Assoc → Assoc) where
  open H use {Parser}

  -- connection::connection, with its socket not open yet
  abbrev pub new_connection : Connection Parser
  new_connection = record {
    socket = unopened;
    request = new_message H;
    response = default_response H;
  }

  -- dispatch, and the buffers of the response that it leaves, which to_buffers changes again.
  unfoldable pub respond : Tm → Connection Parser → Connection Parser × List Bytes
  unfolding dispatch to_buffers
  respond now c =
      let d = dispatch c.request.method c in
      let sent = to_buffers order now d.response in (record d { response = sent.0 }, sent.1)

  -- The buffers of the stock response to a message that cannot be parsed, as they are when the write
  -- is started. They point into a response that is destroyed at the end of that statement, so that
  -- what the write sends of them is not known.
  unfoldable pub refusal : Tm → List Bytes
  unfolding to_buffers stock_response
  refusal now = (to_buffers order now (stock_response H bad_request)).1

  -- What handle_read does with the message status that parsing left.
  unfoldable pub answer : MessageStatus → Tm → ℕ → World Parser → World Parser
  unfolding start
  answer want_more now p w = start p w
  answer faild now p w = begin (writing p (refusal now)) w
  answer complete now p w = let r = respond now (w.heap p) in begin (writing p r.1) (store p r.0 w)

  -- handle_read past its test of the error code, which lets an aborted read through.
  unfoldable pub take_bytes : Tm → ℕ → Bytes → World Parser → World Parser
  unfolding answer
  take_bytes now p bytes w =
      let request = parse H (w.heap p).request bytes in
      answer request.message_status now p (store p (record (w.heap p) { request = request }) w)

  -- connection::handle_read at the time `now`; `bytes` are the first bytes_transferred of buffer_
  unfoldable pub handle_read : ErrorCode → Tm → ℕ → Bytes → World Parser → World Parser
  unfolding manager_stop take_bytes
  handle_read (failure e) now p bytes w = manager_stop p w
  handle_read operation_aborted now p bytes w = take_bytes now p bytes w
  handle_read success now p bytes w = take_bytes now p bytes w

  -- server::start_accept
  unfoldable pub start_accept : World Parser → World Parser
  start_accept w =
      begin accepting
        (record (store w.next new_connection w) { next = suc w.next; new_connection = some w.next })

  -- The branch of server::hanlde_accept without an error. `remote_throws` says whether
  -- remote_endpoint throws; then, as for a null pointer, no world is left.
  unfoldable pub admit : Bool → Option ℕ → World Parser → Option (World Parser)
  unfolding manager_start
  admit remote_throws none w = none
  admit true (some p) w = none
  admit false (some p) w =
      some (manager_start p (store p (record (w.heap p) { socket = connected }) w))

  abbrev then_accept : Option (World Parser) → Option (World Parser)
  then_accept none = none
  then_accept (some w) = some (start_accept w)

  unfoldable pub accept_open : ErrorCode → Bool → World Parser → Option (World Parser)
  unfolding admit start_accept
  accept_open success remote_throws w = then_accept (admit remote_throws w.new_connection w)
  accept_open operation_aborted remote_throws w = some (start_accept w)
  accept_open (failure e) remote_throws w = some (start_accept w)

  -- server::hanlde_accept; `none` is an exception, which main does not catch
  unfoldable pub hanlde_accept : ErrorCode → Bool → World Parser → Option (World Parser)
  unfolding accept_open
  hanlde_accept ec remote_throws w =
      if w.acceptor_open then accept_open ec remote_throws w else some w

  -- The members before the body of server::server, once the signals are waited for.
  abbrev pub blank_server : World Parser
  blank_server = record {
    heap = λ p. new_connection;
    next = 0;
    connections = [];
    new_connection = none;
    acceptor_open = true;
    pending = waiting_signal ∷ [];
  }

  -- server::server
  unfoldable pub new_server : World Parser
  unfolding start_accept
  new_server = start_accept blank_server
