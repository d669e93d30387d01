-- ===== src/Tests/Shutdowns.antt =====
-- The end of the HTTP server after a signal that is handled while a request is read.
use learn_asio.Base.{false, [], ◌∷◌, codes}
use learn_asio.Server.{
  operation_aborted, failure, accepting, reading, World, hanlde_stop, handle_read,
}
use learn_asio.Server.Shutdown.Handlers.{Result}
use learn_asio.Tests.Toy.{toy, Phase}
use learn_asio.Tests.Responses.{some_day, same_order}
use learn_asio.Tests.Servers.{one_client}

abbrev signalled : World Phase
signalled = record one_client { pending = accepting ∷ reading 0 ∷ [] }

-- The read that the signal aborts brings a part of the request, so the next read is started.
abbrev aborted : Result
aborted = record { ec = operation_aborted; throws = false; now = some_day; bytes = codes "+a" }

abbrev read_again : World Phase
read_again =
    handle_read toy same_order operation_aborted some_day 0 (codes "+a")
      (record (hanlde_stop signalled) { pending = accepting ∷ [] })

abbrev bad_descriptor : Result
bad_descriptor = record { ec = failure 9; throws = false; now = some_day; bytes = [] }

abbrev given_up : World Phase
given_up =
    handle_read toy same_order (failure 9) some_day 0 []
      (record read_again { pending = accepting ∷ [] })
