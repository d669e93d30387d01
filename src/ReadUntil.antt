-- ===== src/ReadUntil.antt =====
-- asio::read_until on a socket and a streambuf, which src/http_client/main.cpp calls: an interface,
-- with what asio documents of the call. The reads of the socket bring pieces of bytes; when they
-- are used up the other side has closed the connection.
use learn_asio.Base.{
  Bool, true, false, ◌||◌, ◌&&◌, ◌==◌, ◌≡◌, Option, none, some, List, [], ◌∷◌, ◌++◌, Bytes,
  is_empty, concat,
}

abbrev pub starts_with : Bytes → Bytes → Bool
starts_with [] b = true
starts_with (d ∷ ds) [] = false
starts_with (d ∷ ds) (c ∷ cs) = d == c && starts_with ds cs

abbrev pub contains : Bytes → Bytes → Bool
contains d [] = is_empty d
contains d (c ∷ cs) = starts_with d (c ∷ cs) || contains d cs

-- A call with the delimiter, the buffer's contents and the pieces still to come gives the contents
-- after it and the pieces that are left then; `none` is the exception that it throws.
abbrev pub Call : Type 0
Call = Bytes → Bytes → List Bytes → Option (Bytes × List Bytes)

-- The call has returned, with the delimiter in the buffer and nothing lost.
pub record Arrives (read_until : Call) (delim b : Bytes) (cs : List Bytes) : Type 0 where
  pub got : Bytes
  pub rest : List Bytes
  pub returns : read_until delim b cs ≡ some (got, rest)
  pub has : contains delim got ≡ true
  pub whole : got ++ concat rest ≡ b ++ concat cs

-- It returns once the buffer has the delimiter, reading on as long as it has not; and it throws if
-- the other side closes the connection before that.
pub record ReadUntil : Type 0 where
  pub read_until : Call
  pub arrives :
      (delim b : Bytes) (cs : List Bytes)
      → contains delim (b ++ concat cs) ≡ true
      → Arrives read_until delim b cs
  pub cut_off :
      (delim b : Bytes) (cs : List Bytes)
      → contains delim (b ++ concat cs) ≡ false
      → read_until delim b cs ≡ none
