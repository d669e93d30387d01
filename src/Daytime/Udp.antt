-- ===== src/Daytime/Udp.antt =====
-- The asynchronous UDP server of src/basics/daytime6.cpp.
pub mod Answers
use learn_asio.Base.{
  ℕ, zero, suc, ◌≡◌, Bool, true, false, Option, none, some, List, [], ◌∷◌, ◌++◌, Bytes, ◌==◌, ◌||◌,
  if◌then◌else◌,
}
use learn_asio.Daytime.{Datagram, make_daytime_string}

-- class UdpServer, and the context it runs in: the receives and the sends under way. A send keeps
-- its message by a shared_ptr, and its destination.
pub record UdpServer : Type 0 where
  pub remote_endpoint : ℕ
  pub receives : ℕ
  pub sends : List (ℕ × Bytes)
  pub stopped : Bool

-- UdpServer::start_receive
unfoldable pub start_receive : UdpServer → UdpServer
start_receive s = record s { receives = suc s.receives }

-- UdpServer::UdpServer; the endpoint is only read after a receive has set it.
unfoldable pub new_server : UdpServer
unfolding start_receive
new_server =
    start_receive (record { remote_endpoint = 0; receives = 0; sends = []; stopped = false })

-- The message that answers a datagram.
abbrev pub message : Datagram → Bytes
message d = elim d.error [ none ↦ make_daytime_string d.now | some text ↦ text ]

-- UdpServer::receive
unfoldable pub receive : Datagram → UdpServer → UdpServer
unfolding start_receive
receive d s = start_receive (record s { sends = s.sends ++ (s.remote_endpoint, message d) ∷ [] })

-- UdpServer::send only logs.
unfoldable pub send : UdpServer → UdpServer
send s = s

-- The handler of the signals: SIGINT, SIGSEGV and SIGTERM stop the context.
unfoldable pub handler : ℕ → UdpServer → UdpServer
handler signal_number s =
    if signal_number == 2 || (signal_number == 11 || signal_number == 15)
    then record s { stopped = true }
    else s

-- The runs of io_context::run: the datagrams that were received and the answers whose send has
-- ended, well or badly, each the last one last. A stopped context runs no handler.
pub data Serves : List Datagram → List (ℕ × Bytes) → UdpServer → Type 0 where
  here : Serves [] [] new_server
  received :
      {ds : List Datagram} {ws : List (ℕ × Bytes)} {s : UdpServer} (d : Datagram) (n : ℕ)
      → Serves ds ws s
      → s.stopped ≡ false
      → s.receives ≡ suc n
      → Serves (ds ++ d ∷ []) ws (receive d (record s { remote_endpoint = d.sender; receives = n }))
  sent :
      {ds : List Datagram} {ws : List (ℕ × Bytes)} {s : UdpServer} (xs ys : List (ℕ × Bytes))
      (m : ℕ × Bytes)
      → Serves ds ws s
      → s.stopped ≡ false
      → s.sends ≡ xs ++ m ∷ ys
      → Serves ds (ws ++ m ∷ []) (send (record s { sends = xs ++ ys }))
  signal :
      {ds : List Datagram} {ws : List (ℕ × Bytes)} {s : UdpServer} (signal_number : ℕ)
      → Serves ds ws s
      → s.stopped ≡ false
      → Serves ds ws (handler signal_number s)
