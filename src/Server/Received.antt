-- ===== src/Server/Received.antt =====
-- What a connection of src/http_server has received in a run of the server, whatever else happens
-- between its reads.
pub mod Kept
pub mod Reads
pub mod Whole
use learn_asio.Base.{ℕ, ◌≡◌, ◌⊎◌, some, List, [], ◌∷◌, ◌++◌, Bytes, ◌==◌, if◌then◌else◌, ◌≤◌}
use learn_asio.Base.Assoc.{Assoc}
use learn_asio.HttpParser.{HttpParser}
use learn_asio.Message.{Message, want_more, new_message, parse}
use learn_asio.Message.Pieces.{Waits, parse_each}
use learn_asio.Server.{ErrorCode, success, operation_aborted, failure, World, new_server}
use learn_asio.Server.Steps.{Io, Serves}
use learn_asio.Server.Fresh.{reads_on}

module _ (H : HttpParser) (order : Assoc → Assoc) where
  open H use {Parser}

  -- What one step has read on the connection `p`; a read that failed brings nothing, unless it was
  -- aborted.
  unfoldable pub read_by : {w w' : World Parser} → ℕ → Io H order w w' → List Bytes
  read_by p (Io.accepted xs ys ec throws split e) = []
  read_by p (Io.read xs ys (failure k) now q bytes split fits e) = []
  read_by p (Io.read xs ys operation_aborted now q bytes split fits e) =
      if p == q then bytes ∷ [] else []
  read_by p (Io.read xs ys success now q bytes split fits e) = if p == q then bytes ∷ [] else []
  read_by p (Io.wrote xs ys ec throws q buffers split e) = []

  -- The pieces that the connection `p` has read in a run, first one first.
  unfoldable pub received :
      {w : World Parser} → ℕ → Serves H order (new_server H order) w → List Bytes
  unfolding read_by
  received p Serves.here = []
  received p (Serves.next r s) = received p r ++ read_by p s

  -- The connection `p` has parsed the pieces `bs`, and its message wanted more before each. While
  -- it is read, its message wants more; before it is accepted, it has read nothing.
  pub record Tracks (p : ℕ) (bs : List Bytes) (w : World Parser) : Type 0 where
    pub parsed : (w.heap p).request ≡ parse_each H (new_message H) bs
    pub waited : Waits H (new_message H) bs
    pub wants : (reads_on p w.pending ≡ 0) ⊎ ((w.heap p).request.message_status ≡ want_more)
    pub unmade : w.next ≤ p → bs ≡ []
    pub spare : w.new_connection ≡ some p → bs ≡ []
