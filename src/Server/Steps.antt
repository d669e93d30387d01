-- ===== src/Server/Steps.antt =====
-- What can happen to the server of src/http_server while io_context::run runs: one operation that
-- is under way ends, in any order and with any result, and its handler runs to its end.
use learn_asio.Base.{ℕ, ◌≤◌, ◌≡◌, Bool, some, List, ◌∷◌, ◌++◌, Bytes, length}
use learn_asio.Base.Assoc.{Assoc}
use learn_asio.HttpParser.{HttpParser}
use learn_asio.Response.Date.{Tm}
use learn_asio.Server.{
  ErrorCode, Operation, accepting, waiting_signal, reading, writing, World, handle_read,
  handle_write, hanlde_accept, hanlde_stop,
}

-- connection::buffer_size
abbrev pub buffer_size : ℕ
buffer_size = 1024

module _ (H : HttpParser) (order : Assoc → Assoc) where
  open H use {Parser}

  -- The handlers of accepts, reads and writes.
  pub data Io (w w' : World Parser) : Type 0 where
    accepted :
        (xs ys : List Operation) (ec : ErrorCode) (remote_throws : Bool)
        → w.pending ≡ xs ++ accepting ∷ ys
        → hanlde_accept H order ec remote_throws (record w { pending = xs ++ ys }) ≡ some w'
        → Io w w'
    read :
        (xs ys : List Operation) (ec : ErrorCode) (now : Tm) (p : ℕ) (bytes : Bytes)
        → w.pending ≡ xs ++ reading p ∷ ys
        → length bytes ≤ buffer_size
        → w' ≡ handle_read H order ec now p bytes (record w { pending = xs ++ ys })
        → Io w w'
    wrote :
        (xs ys : List Operation) (ec : ErrorCode) (throws : Bool) (p : ℕ) (buffers : List Bytes)
        → w.pending ≡ xs ++ writing p buffers ∷ ys
        → w' ≡ handle_write ec throws p (record w { pending = xs ++ ys })
        → Io w w'

  -- Those, and the handler of a signal.
  pub data Step (w w' : World Parser) : Type 0 where
    io : Io w w' → Step w w'
    signalled :
        (xs ys : List Operation)
        → w.pending ≡ xs ++ waiting_signal ∷ ys
        → w' ≡ hanlde_stop (record w { pending = xs ++ ys })
        → Step w w'

  -- Any number of steps; of the first kind only.
  pub data Runs (w : World Parser) : World Parser → Type 0 where
    here : Runs w w
    next : {u v : World Parser} → Runs w u → Step u v → Runs w v

  pub data Serves (w : World Parser) : World Parser → Type 0 where
    here : Serves w w
    next : {u v : World Parser} → Serves w u → Io u v → Serves w v
