-- ===== src/Daytime/Tcp.antt =====
-- The TCP server of src/basics/daytime3.cpp.
pub mod Greetings
use learn_asio.Base.{
  ℕ, suc, ◌≡◌, Bool, true, false, List, [], ◌∷◌, ◌++◌, Bytes, codes, if◌then◌else◌,
}
use learn_asio.Base.Decimal.{to_decimal}
use learn_asio.Response.Date.{Tm}
use learn_asio.Daytime.{make_daytime_string}

-- What an accept ends with: the connection, whether there is an error, whether remote_endpoint
-- throws when the connection is started and when it is destroyed, and else the address and the
-- port of the client; and the time.
pub record Client : Type 0 where
  pub connection : ℕ
  pub failed : Bool
  pub throws : Bool
  pub throws_at_end : Bool
  pub address : Bytes
  pub port : ℕ
  pub now : Tm

-- The accepts under way, and the writes, each with its connection and that one's message_. A
-- connection lives as long as the accept or the write whose handler holds it.
pub record Server : Type 0 where
  pub accepts : ℕ
  pub writes : List (ℕ × Bytes)

-- How a handler ends: it returns, its exception leaves io_context::run, or the destructor of a
-- connection throws, which ends the process.
pub data Fate : Type 0 where
  returned : Server → Fate
  thrown terminated : Fate

-- TcpConnection::~TcpConnection, when a handler has returned and when its exception goes past
abbrev pub destroy : Bool → Fate → Fate
destroy true f = terminated
destroy false f = f

-- TcpServer::start_accept
unfoldable pub start_accept : Server → Server
start_accept s = record s { accepts = suc s.accepts }

-- TcpServer::TcpServer
unfoldable pub new_server : Server
unfolding start_accept
new_server = start_accept (record { accepts = 0; writes = [] })

-- message_, as TcpConnection::Start makes it up
unfoldable pub message : Client → Bytes
message c =
    make_daytime_string c.now
    ++ (codes "client address is " ++ c.address ++ codes ":" ++ to_decimal c.port ++ 10 ∷ [])

-- TcpConnection::Start, and what TcpServer::accept does after it. The write's handler keeps the
-- connection alive, so it is only destroyed here if an exception goes past.
unfoldable pub start : Client → Server → Fate
unfolding message start_accept
start c s =
    if c.throws
    then destroy c.throws_at_end thrown
    else returned (start_accept (record s { writes = s.writes ++ (c.connection, message c) ∷ [] }))

-- TcpServer::accept
unfoldable pub accept : Client → Server → Fate
unfolding start
accept c s = if c.failed then destroy c.throws_at_end thrown else start c s

-- TcpConnection::write, with whether there is an error; its connection is destroyed after it.
unfoldable pub write : Bool → Bool → Server → Fate
write error throws_at_end s = destroy throws_at_end (if error then thrown else returned s)

-- The runs of io_context::run in which all handlers return: the clients that were accepted, and
-- what was written to whom, each the last one last.
pub data Serves : List Client → List (ℕ × Bytes) → Server → Type 0 where
  here : Serves [] [] new_server
  accepted :
      {cs : List Client} {ws : List (ℕ × Bytes)} {s s' : Server} (c : Client) (n : ℕ)
      → Serves cs ws s
      → s.accepts ≡ suc n
      → accept c (record s { accepts = n }) ≡ returned s'
      → Serves (cs ++ c ∷ []) ws s'
  written :
      {cs : List Client} {ws : List (ℕ × Bytes)} {s s' : Server} (xs ys : List (ℕ × Bytes))
      (m : ℕ × Bytes) (error throws_at_end : Bool)
      → Serves cs ws s
      → s.writes ≡ xs ++ m ∷ ys
      → write error throws_at_end (record s { writes = xs ++ ys }) ≡ returned s'
      → Serves cs (ws ++ m ∷ []) s'
