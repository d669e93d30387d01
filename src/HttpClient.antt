-- ===== src/HttpClient.antt =====
-- The HTTP client of src/http_client/main.cpp: the request that it sends, and what it makes of what
-- it receives. A connection is the list of the pieces that the reads of its socket bring; when
-- the list is used up the other side has closed it.
pub mod Fronts
pub mod Lines
pub mod Reading
pub mod Rounds
pub mod Served
pub mod CutOff
pub mod Whole
use learn_asio.Base.{
  ℕ, zero, suc, ◌||◌, ◌&&◌, not, Bool, true, false, Option, none, some, List, [], ◌∷◌, ◌++◌, Bytes,
  codes, is_empty, beq, length, ◌==◌, if◌then◌else◌,
}
use learn_asio.IStream.{IStream, fresh, extract_word, extract_int, get_line}
use learn_asio.ReadUntil.{ReadUntil, starts_with}
use learn_asio.Response.Texts.{crlf}

abbrev pub repeat : ℕ → ℕ → Bytes
repeat zero c = []
repeat (suc n) c = c ∷ repeat n c

-- What is written to the socket.
unfoldable pub request : Bytes
request =
    codes "GET /index.html"
    ++ codes " HTTP/1.0"
    ++ crlf
    ++ codes "Host: localhost"
    ++ crlf
    ++ codes "Accept: */*"
    ++ crlf
    ++ codes "Content-Type: text/plain; charset=utf-8"
    ++ crlf
    ++ codes "Content-Length: 2048"
    ++ crlf
    ++ crlf
    ++ crlf
    ++ repeat 2048 97

-- What one round of the loop logs.
pub data Outcome : Type 0 where
  invalid_response : Outcome
  not_ok : Bool → ℕ → Outcome  -- the status code: whether it is negative, and its magnitude
  listed : List Bytes → Outcome  -- the header lines

-- The loop that logs the header lines; each round takes at least one character out of the buffer.
unfoldable pub log_headers : ℕ → IStream → List Bytes
log_headers zero s = []
log_headers (suc fuel) s =
    let got = get_line s in
    let more = got.0 ∷ log_headers fuel got.1 in
    if got.1.fail || beq got.0 (13 ∷ []) then [] else more

abbrev pub is_http : Bytes → Bool
is_http version = starts_with (codes "HTTP/") version

module _ (R : ReadUntil) where
  -- The buffer is read on behind the stream, whose state bits stay.
  unfoldable pub read_headers : IStream → List Bytes → Option Outcome
  unfolding log_headers
  read_headers s cs = elim (R.read_until (crlf ++ crlf) s.chars cs) [
    | none ↦ none
    | some (b, _) ↦ some (listed (log_headers (suc (length b)) (record s { chars = b })))
  ]

  -- The status line is in the buffer `b`; `cs` are the pieces still to come.
  unfoldable pub judge : Bytes → List Bytes → Option Outcome
  unfolding extract_word extract_int get_line read_headers
  judge b cs =
      let version = extract_word (fresh b) in
      let code = extract_int version.1 in
      let message = get_line code.1 in
      if message.1.fail || not (is_http version.0)
      then some invalid_response
      else if code.0.0 || not (code.0.1 == 200)
      then some (not_ok code.0.0 code.0.1)
      else read_headers message.1 cs

  -- One round of the loop, from the first read on; `none` is an exception, which main does not catch.
  unfoldable pub exchange : List Bytes → Option Outcome
  unfolding judge
  exchange cs = elim (R.read_until crlf [] cs) [ none ↦ none | some (b, rest) ↦ judge b rest ]

  -- The loop, over the connections that it makes: what it logs, and whether an exception ended it.
  unfoldable pub run_client : List (List Bytes) → List Outcome × Bool
  unfolding exchange
  run_client [] = ([], false)
  run_client (c ∷ cs) =
      let rest = run_client cs in
      elim (exchange c) [ none ↦ ([], true) | some o ↦ (o ∷ rest.0, rest.1) ]
