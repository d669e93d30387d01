-- ===== src/Tests/Lines.antt =====
-- The theorems on the line server: a session that has read one line, and a server whose second accept
-- fails.
use learn_asio.Base.{◌≡◌, ◌⊎◌, refl, false, [], ◌∷◌, ◌++◌, Bytes, codes, ◌+◌, length}
use learn_asio.Outbox.{IsReady}
use learn_asio.LineServer.{LineSession, started, echo, on_read, end_read, Echoes}
use learn_asio.LineServer.Order.{Echoes-in_order}
use learn_asio.LineServer.Accepting.{
  LineServer, new_server, accept, on_accept, Accepts, accepts_until_error,
}

abbrev hello : Bytes
hello = codes "hello"

abbrev one_line : LineSession
one_line = echo 6 (end_read 0 (hello ++ 10 ∷ []) started)

one_line_read : Echoes (hello ∷ []) [] one_line
unfolding started on_read
one_line_read = Echoes.read_line 0 (hello ++ 10 ∷ []) hello [] false Echoes.here refl refl refl refl

Echoes-in_order_example :
    ([] ++ one_line.outbox.messages ≡ hello ∷ [])
    × IsReady one_line.outbox
    × ((one_line.reading ≡ 1) ⊎ (one_line.is_open ≡ false))
Echoes-in_order_example = Echoes-in_order one_line_read

-- A first client is accepted, and the accept after it fails.
abbrev deaf : LineServer
deaf = record { accepts = 0; sessions = started ∷ [] }

deaf_reached : Accepts 1 1 deaf
unfolding new_server accept on_accept
deaf_reached = Accepts.refused 0 false (Accepts.accepted 0 false Accepts.here refl refl) refl refl

accepts_until_error_example : (deaf.accepts + 1 ≡ 1) × (length deaf.sessions ≡ 1)
accepts_until_error_example = accepts_until_error deaf_reached
