-- ===== src/Server/Shutdown/Ending.antt =====
-- The end of the server of src/http_server, once a signal was handled.
use learn_asio.Base.{ℕ, suc, ◌+◌, ◌*◌, ◌≤◌, ◌≡◌, false, List, ◌∷◌, ◌++◌, Bytes, length}
use learn_asio.Base.Assoc.{Assoc}
use learn_asio.HttpParser.{HttpParser}
use learn_asio.Server.{Operation, writing, World}
use learn_asio.Server.Shutdown.Dangling.{IsOwned}
use learn_asio.Server.Shutdown.Winding.{Closed, Transfers, Winds}

module _ {P : Type 0} where
  -- All that is under way is on closed sockets, and an operation that was under way at the signal
  -- has two handlers to run at most, its own and that of an operation that is started by it.
  record IsWinding (start n : ℕ) (late early : List Operation) (w : World P) : Type 0 where
    shut : w.acceptor_open ≡ false
    same : w.pending ≡ late ++ early
    late_closed : Closed w late
    early_closed : Closed w early
    transfers : Transfers late
    fewer : n + 2 * length early + length late ≤ 2 * start

module _ {P : Type 0} where
  -- A write is under way on a connection that nobody owns.
  abbrev pub WritesDisowned : World P → Type 0
  WritesDisowned w =
      (xs : List Operation) × (p : ℕ) × (buffers : List Bytes) × (ys : List Operation) × (w.pending
        ≡ xs ++ writing p buffers ∷ ys)
      × ¬ IsOwned w p

module _ (H : HttpParser) (order : Assoc → Assoc) where
  open H use {Parser}

  -- One more handler can run.
  abbrev pub GoesOn : World Parser → ℕ → Type 0
  GoesOn u n =
      (late : List Operation) × (early : List Operation) × (w : World Parser) × Winds H order u
        (suc n) late early w
