-- ===== src/Daytime/Both.antt =====
-- The TCP server and the UDP server of src/basics/daytime7.cpp, which share one io_context.
pub mod Invariant
use learn_asio.Base.{
  ℕ, suc, ◌≡◌, Bool, true, false, Option, none, some, List, [], ◌∷◌, ◌++◌, Bytes, if◌then◌else◌,
}
use learn_asio.Daytime.{Datagram, Client, make_daytime_string}

-- class TcpServer with its TcpConnections, and class UdpServer: the accepts, the writes of
-- message_ to a connection, the receives, and the sends to an endpoint that are under way. A
-- connection lives as long as its write. The UDP server has one message_ for all sends.
pub record Servers : Type 0 where
  pub accepts : ℕ
  pub writes : List (ℕ × Bytes)
  pub receives : ℕ
  pub remote_endpoint : ℕ
  pub message : Bytes
  pub sends : List ℕ

-- TcpServer::start_accept
unfoldable pub start_accept : Servers → Servers
start_accept w = record w { accepts = suc w.accepts }

-- TcpConnection::Start
unfoldable pub start : Client → Servers → Servers
start c w = record w { writes = w.writes ++ (c.socket, make_daytime_string c.now) ∷ [] }

-- TcpServer::accept; `none` is an exception, with which main ends both servers.
unfoldable pub accept : Client → Servers → Option Servers
unfolding start_accept start
accept c w = if c.failed then none else some (start_accept (start c w))

-- TcpConnection::write, with whether there is an error
unfoldable pub write : Bool → Servers → Option Servers
write true w = none
write false w = some w

-- UdpServer::start_receive
unfoldable pub start_receive : Servers → Servers
start_receive w = record w { receives = suc w.receives }

-- UdpServer::receive. The log line prints recv_buf_.data(), a byte without a NUL, as a C string; that
-- and what it may read behind that byte is left out.
unfoldable pub receive : Datagram → Servers → Servers
receive d w = elim d.error [
  | some _ ↦ w
  | none ↦ record w {
    message = make_daytime_string d.now;
    sends = w.sends ++ w.remote_endpoint ∷ [];
  }
]

-- UdpServer::write only logs.
unfoldable pub sent : Servers → Servers
sent w = w

abbrev idle : Servers
idle = record {
  accepts = 0;
  writes = [];
  receives = 0;
  remote_endpoint = 0;
  message = [];
  sends = [];
}

-- The two constructors, in the order of main
unfoldable pub new_servers : Servers
unfolding start_accept start_receive
new_servers = start_receive (start_accept idle)

-- The runs of io_context::run without an exception: the clients that were accepted, what was
-- written to whom, the waits for a datagram that have ended, and what the sends that have ended,
-- well or badly, had in message_ for whom; each the last one last.
pub data Serves
    : List Client → List (ℕ × Bytes) → List Datagram → List (ℕ × Bytes) → Servers → Type 0 where
  here : Serves [] [] [] [] new_servers
  accepted :
      {cs : List Client} {ws us : List (ℕ × Bytes)} {ds : List Datagram} {w w' : Servers}
      (c : Client) (n : ℕ)
      → Serves cs ws ds us w
      → w.accepts ≡ suc n
      → accept c (record w { accepts = n }) ≡ some w'
      → Serves (cs ++ c ∷ []) ws ds us w'
  written :
      {cs : List Client} {ws us : List (ℕ × Bytes)} {ds : List Datagram} {w w' : Servers}
      (xs ys : List (ℕ × Bytes)) (m : ℕ × Bytes) (error : Bool)
      → Serves cs ws ds us w
      → w.writes ≡ xs ++ m ∷ ys
      → write error (record w { writes = xs ++ ys }) ≡ some w'
      → Serves cs (ws ++ m ∷ []) ds us w'
  received :
      {cs : List Client} {ws us : List (ℕ × Bytes)} {ds : List Datagram} {w : Servers}
      (d : Datagram) (n : ℕ)
      → Serves cs ws ds us w
      → w.receives ≡ suc n
      → Serves cs ws
          (ds ++ d ∷ [])
          us
          (receive d (record w { remote_endpoint = d.sender; receives = n }))
  answered :
      {cs : List Client} {ws us : List (ℕ × Bytes)} {ds : List Datagram} {w : Servers}
      (xs ys : List ℕ) (p : ℕ)
      → Serves cs ws ds us w
      → w.sends ≡ xs ++ p ∷ ys
      → Serves cs ws ds (us ++ (p, w.message) ∷ []) (sent (record w { sends = xs ++ ys }))
