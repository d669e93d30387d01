-- ===== src/HttpParser.antt =====
-- The third-party http_parser (a git submodule, third_party) as the program uses it: a state, a
-- start state, one function that consumes bytes and reports the callbacks that it makes, and the
-- fields that are read after it. The program's callbacks all return 0 and touch the message only,
-- so the callbacks that are made depend on the parser's state and the bytes alone.
use learn_asio.Base.{ℕ, Bool, List, Bytes}

-- The callbacks of http_parser_settings, in the order in which the parser makes them.
pub data Callback : Type 0 where
  on_message_begin on_headers_complete on_message_complete : Callback
  on_chunk_header on_chunk_complete : Callback
  on_url on_status on_header_field on_header_value on_body : Bytes → Callback

-- The values of http_method that the program names, and all others.
pub data HttpMethod : Type 0 where
  http_get http_post http_put http_delete http_other : HttpMethod

pub record HttpParser : Type 1 where
  pub Parser : Type 0
  -- http_parser_init(&parser, HTTP_BOTH)
  pub init : Parser
  -- http_parser_execute(&parser, &settings, data, len)
  pub execute : Parser → Bytes → Parser × List Callback
  -- parser.http_errno; HPE_OK is 0
  pub http_errno : Parser → ℕ
  pub major : Parser → ℕ
  pub minor : Parser → ℕ
  pub verb : Parser → HttpMethod
  pub status_code : Parser → ℕ
  pub should_keep_alive : Parser → Bool
  pub upgraded : Parser → Bool
