-- ===== src/Chat.antt =====
-- The chat server of tutorial/301.chat_server.cpp: class session and class server, over one state:
-- the sessions by pointer, the vector of those that joined, and the operations that are under way.
-- A handler holds its session by a shared pointer, so that a session lives while it runs.
pub mod Steps
pub mod Broadcast
pub mod Invariant
pub mod Running
pub mod Effects
pub mod Silent
pub mod Ends
pub mod Room
pub mod Entries
pub mod Delivered
pub mod InFull
use learn_asio.Base.{
  ℕ, zero, suc, ◌+◌, Bool, true, false, Option, none, some, List, [], ◌∷◌, ◌++◌, Bytes, codes, ◌==◌,
  if◌then◌else◌,
}
use learn_asio.Outbox.{Outbox, empty_outbox, push, on_written}
use learn_asio.Streambuf.{getline, consume}

-- class session. outgoing_messages_ is in the outbox; `reading` counts the calls of
-- async_read_until that are under way.
pub record Session : Type 0 where
  pub is_open : Bool
  pub buffer : Bytes
  pub outbox : Outbox
  pub name : Bytes
  pub reading : ℕ

-- class server, with the sessions that its accepts and its vector hold.
pub record ChatServer : Type 0 where
  pub heap : ℕ → Session
  pub next : ℕ
  pub sessions : List ℕ
  pub accepting : List ℕ

-- session::session
abbrev pub new_session : Session
new_session = record { is_open = true; buffer = []; outbox = empty_outbox; name = []; reading = 0 }

abbrev pub update : (ℕ → Session) → ℕ → Session → ℕ → Session
update h p s q = if q == p then s else h q

abbrev pub store : ℕ → Session → ChatServer → ChatServer
store p s w = record w { heap = update w.heap p s }

-- session::post
unfoldable pub post : Bytes → Session → Session
unfolding push
post msg s = record s { outbox = push msg s.outbox }

-- session::async_read
unfoldable pub async_read : Session → Session
async_read s = record s { reading = suc s.reading }

-- session::on_error
unfoldable pub on_error : Session → Session
on_error s = record s { is_open = false }

-- session::start; `endpoint` is the printed remote_endpoint of the socket
unfoldable pub start_session : Bytes → Session → Session
unfolding async_read
start_session endpoint s = async_read (record s { name = codes "[" ++ endpoint ++ codes "]: " })

abbrev pub post_at : Bytes → ℕ → ChatServer → ChatServer
post_at msg p w = store p (post msg (w.heap p)) w

-- The loop of server::broadcast.
unfoldable pub post_each : Bytes → List ℕ → ChatServer → ChatServer
unfolding post
post_each msg [] w = w
post_each msg (p ∷ ps) w = post_each msg ps (post_at msg p w)

-- server::broadcast
unfoldable pub broadcast : Bytes → ChatServer → ChatServer
unfolding post_each
broadcast msg w = post_each msg w.sessions w

-- session::on_read past its test of the error code
unfoldable pub take_line : ℕ → ℕ → ChatServer → ChatServer
unfolding getline consume broadcast post
take_line bytes_transferred p w =
    let s = w.heap p in
    let (line, rest) = getline s.buffer in
    let taken = store p (record s { buffer = consume bytes_transferred rest }) w in
    post_at line p (broadcast (s.name ++ line) taken)

-- session::on_read
unfoldable pub on_read : Bool → ℕ → ℕ → ChatServer → ChatServer
unfolding on_error take_line
on_read true bytes_transferred p w = store p (on_error (w.heap p)) w
on_read false bytes_transferred p w = take_line bytes_transferred p w

-- session::on_write
unfoldable pub on_write : Bool → Session → Session
unfolding on_error on_written
on_write true s = on_error s
on_write false s = record s { outbox = on_written s.outbox }

-- server::accept
unfoldable pub accept : ChatServer → ChatServer
accept w =
    let made = store w.next new_session w in
    record made { next = suc w.next; accepting = w.next ∷ w.accepting }

abbrev pub welcome : Bytes
welcome = codes "Welcome to the chat server" ++ 10 ∷ []

-- server::on_accept without an error, once both calls of remote_endpoint have returned.
unfoldable pub join : Bytes → Bytes → ℕ → ChatServer → ChatServer
unfolding broadcast post start_session accept
join joined endpoint p w =
    let told = broadcast (joined ++ codes " joined" ++ 10 ∷ []) w in
    let started = store p (start_session endpoint (post welcome (told.heap p))) told in
    accept (record started { sessions = started.sessions ++ p ∷ [] })

-- session::~session
unfoldable pub destroy : ℕ → ChatServer → ChatServer
unfolding broadcast
destroy p w = broadcast ((w.heap p).name ++ codes " has left the chat") w

-- The handler of an accept: server::on_accept, after which the session is destroyed if nobody else
-- holds it. The first two arguments are what remote_endpoint gives in on_accept and in
-- session::start, `none` if it throws; then no state is left, since nothing catches the exception.
unfoldable pub on_accept : Bool → Option Bytes → Option Bytes → ℕ → ChatServer → Option ChatServer
unfolding destroy join
on_accept true joined endpoint p w = some (destroy p w)
on_accept false none endpoint p w = none
on_accept false (some joined) none p w = none
on_accept false (some joined) (some endpoint) p w = some (join joined endpoint p w)

abbrev pub empty_chat : ChatServer
empty_chat = record { heap = λ p. new_session; next = 0; sessions = []; accepting = [] }

-- server::run up to io_context::run
unfoldable pub new_chat : ChatServer
unfolding accept
new_chat = accept empty_chat
