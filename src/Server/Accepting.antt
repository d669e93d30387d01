-- ===== src/Server/Accepting.antt =====
-- When server::hanlde_accept of src/http_server throws.
use learn_asio.Base.{◌≡◌, ◌↔◌, Bool, true, false, none, List, ◌∷◌, ◌++◌, arith}
use learn_asio.Base.Assoc.{Assoc}
use learn_asio.HttpParser.{HttpParser}
use learn_asio.Server.{
  ErrorCode, success, operation_aborted, failure, Operation, accepting, World, hanlde_accept,
  new_server,
}
use learn_asio.Server.Steps.{Serves}
use learn_asio.Server.Serving.{Serves-IsServing}

module _ (H : HttpParser) (order : Assoc → Assoc) where
  open H use {Parser}

  -- In any state that the server reaches by accepts, reads and writes, the handler of an accept
  -- throws exactly when the accept had no error and remote_endpoint throws, as it does for a client
  -- that has gone already; an accept that failed never ends the server.
  pub hanlde_accept_throws :
      {w : World Parser} (xs ys : List Operation) (ec : ErrorCode) (remote_throws : Bool)
      → Serves H order (new_server H order) w
      → w.pending ≡ xs ++ accepting ∷ ys
      → (hanlde_accept H order ec remote_throws (record w { pending = xs ++ ys }) ≡ none)
        ↔ ((ec ≡ success) × (remote_throws ≡ true))
  unfolding hanlde_accept
  hanlde_accept_throws {w} xs ys success true r split =
      let v = Serves-IsServing H order r in ground (arith, v.spare.1.held, v.is_open)
  hanlde_accept_throws {w} xs ys success false r split =
      let v = Serves-IsServing H order r in ground (arith, v.spare.1.held, v.is_open)
  hanlde_accept_throws {w} xs ys operation_aborted throws r split =
      let v = Serves-IsServing H order r in ground (arith, v.spare.1.held, v.is_open)
  hanlde_accept_throws {w} xs ys (failure c) throws r split =
      let v = Serves-IsServing H order r in ground (arith, v.spare.1.held, v.is_open)
