-- ===== src/Response.antt =====
-- response (src/http_server/response.h, src/http_server/response.cpp): the status codes, the two
-- constructors, and to_buffers, which lays the response out for the wire.
pub mod Texts
pub mod Date
pub mod Reader
pub mod Wire
pub mod Status
use learn_asio.Base.{ℕ, List, [], ◌∷◌, ◌++◌, Bytes, codes, length, ◌==◌}
use learn_asio.Base.Assoc.{Assoc, insert}
use learn_asio.Base.Decimal.{to_decimal}
use learn_asio.HttpParser.{HttpParser}
use learn_asio.Message.{Message, new_message}
use Texts.{StatusCode, ok, not_implemented, to_buffer, to_string, name_value_separator, crlf}
use Date.{Tm, put_time}

pub record Response (P : Type 0) : Type 0 where
  pub message : Message P
  pub status : StatusCode
  pub content : Bytes

abbrev pub k_date : Bytes
k_date = codes "Date"

abbrev pub k_content_length : Bytes
k_content_length = codes "Content-Length"

abbrev pub k_content_type : Bytes
k_content_type = codes "Content-Type"

abbrev pub k_server : Bytes
k_server = codes "Server"

abbrev pub k_connection : Bytes
k_connection = codes "Connection"

-- The buffers of one header.
abbrev pub header_buffers : Bytes × Bytes → List Bytes
header_buffers (k, v) = k ∷ name_value_separator ∷ v ∷ crlf ∷ []

abbrev pub headers_buffers : Assoc → List Bytes
headers_buffers [] = []
headers_buffers (h ∷ hs) = header_buffers h ++ headers_buffers hs

module _ {P : Type 0} where
  -- headers_[key] = value
  unfoldable pub set_header : Bytes → Bytes → Response P → Response P
  unfolding insert
  set_header key value r = record r {
    message = record r.message { headers = insert key value r.message.headers };
  }

  -- The two headers that to_buffers sets before it walks the map.
  unfoldable pub stamp : Tm → Response P → Response P
  unfolding set_header
  stamp now r =
      set_header k_content_length (to_decimal (length r.content))
        (set_header k_date (put_time now) r)

  -- response::to_buffers at the time `now`: the response with its two new headers, and the
  -- buffers. `order` is the order in which the unordered_map is walked.
  unfoldable pub to_buffers : (Assoc → Assoc) → Tm → Response P → Response P × List Bytes
  unfolding stamp to_buffer
  to_buffers order now r =
      let r' = stamp now r in
      (r', to_buffer r.status ∷ headers_buffers (order r'.message.headers) ++ crlf ∷ r.content ∷ [])

module _ (H : HttpParser) where
  open H use {Parser}

  -- The members before a constructor's body runs; the header's initialiser of `status` is 501.
  unfoldable pub blank : Response Parser
  unfolding new_message
  blank = record { message = new_message H; status = not_implemented; content = [] }

  -- response::response(const status_code)
  unfoldable pub stock_response : StatusCode → Response Parser
  unfolding blank set_header to_string
  stock_response code =
      let page = to_string code in
      set_header k_content_length (to_decimal (length page))
        (record blank { status = code; content = page })

  -- response::response()
  unfoldable pub default_response : Response Parser
  unfolding blank set_header
  default_response = set_header k_connection (codes "close") (
      set_header k_server (codes "tonghao&asio")
        (set_header k_content_type (codes "text/json") (record blank { status = ok })))
