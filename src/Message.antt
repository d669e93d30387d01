-- ===== src/Message.antt =====
-- http_message (src/common/message.h, src/common/message.cpp): what a request or a response holds,
-- the callbacks by which the parser fills it, and http_message::parse. `request` adds nothing
-- (src/http_server/request.cpp). The log lines (print, TRACE, LOGW) are left out.
pub mod Headers
pub mod Joined
pub mod Outcome
pub mod Fragments
pub mod Pieces
use learn_asio.Base.{
  ℕ, Bool, true, false, not, ◌&&◌, List, [], ◌∷◌, ◌++◌, Bytes, is_empty, ◌==◌, if◌then◌else◌,
}
use learn_asio.Base.Assoc.{Assoc, insert}
use learn_asio.HttpParser.{
  Callback, on_message_begin, on_headers_complete, on_message_complete, on_chunk_header,
  on_chunk_complete, on_url, on_status, on_header_field, on_header_value, on_body, HttpMethod,
  http_get, http_post, http_put, http_delete, http_other, HttpParser,
}

pub data MessageStatus : Type 0 where
  complete want_more faild : MessageStatus

-- http_message::method
pub data Method : Type 0 where
  get post put del invalid : Method

-- http_message over the parser's state `P`, which its impl holds.
pub record Message (P : Type 0) : Type 0 where
  pub method : Method
  pub http_major : ℕ
  pub http_minor : ℕ
  pub url : Bytes
  pub headers : Assoc
  pub body : Bytes
  pub status : ℕ
  pub upgrade : Bool
  pub keep_alive : Bool
  pub parser : P
  pub current_header_field : Bytes
  pub current_header_value : Bytes
  pub message_status : MessageStatus

module _ {P : Type 0} where
  unfoldable pub save_headers : Message P → Message P
  unfolding insert
  save_headers m =
      if not (is_empty m.current_header_value) && not (is_empty m.current_header_field)
      then record m {
        headers = insert m.current_header_field m.current_header_value m.headers;
        current_header_field = [];
        current_header_value = [];
      }
      else m

  unfoldable pub callback : Callback → Message P → Message P
  unfolding save_headers
  callback on_message_begin m = m
  callback (on_url at) m = record m { url = m.url ++ at }
  callback (on_status at) m = m
  callback (on_header_field at) m =
      let s = save_headers m in record s { current_header_field = s.current_header_field ++ at }
  callback (on_header_value at) m = record m { current_header_value = m.current_header_value ++ at }
  callback on_headers_complete m = save_headers m
  callback (on_body at) m = record m { body = m.body ++ at }
  callback on_message_complete m = record m { message_status = complete }
  callback on_chunk_header m = m
  callback on_chunk_complete m = m

  -- The callbacks of one call of the parser, first one first.
  unfoldable pub run_callbacks : List Callback → Message P → Message P
  run_callbacks [] m = m
  run_callbacks (c ∷ cs) m = run_callbacks cs (callback c m)

-- The switch of http_message::parse; its default leaves the method as it was.
unfoldable pub to_method : HttpMethod → Method → Method
to_method http_get old = get
to_method http_post old = post
to_method http_put old = put
to_method http_delete old = del
to_method http_other old = old

module _ (H : HttpParser) where
  open H use {
    Parser, init, execute, http_errno, major, minor, verb, status_code, should_keep_alive, upgraded,
  }

  -- http_message::http_message
  unfoldable pub new_message : Message Parser
  new_message = record {
    method = invalid;
    http_major = 0;
    http_minor = 0;
    url = [];
    headers = [];
    body = [];
    status = 0;
    upgrade = false;
    keep_alive = false;
    parser = init;
    current_header_field = [];
    current_header_value = [];
    message_status = want_more;
  }

  -- http_message::reset, which resets the parser alone
  unfoldable pub reset : Message Parser → Message Parser
  reset m = record m { parser = init }

  -- http_message::impl::parse
  unfoldable pub feed : Message Parser → Bytes → Message Parser
  unfolding run_callbacks callback
  feed m bytes =
      let r = execute m.parser bytes in
      let m' = run_callbacks r.1 (record m { parser = r.0 }) in
      if http_errno r.0 == 0 then m' else record m' { message_status = faild }

  -- What http_message::parse copies from the parser once the message is complete.
  unfoldable pub copy_result : Message Parser → Message Parser
  unfolding to_method
  copy_result m = record m {
    http_major = major m.parser;
    http_minor = minor m.parser;
    method = to_method (verb m.parser) m.method;
    status = status_code m.parser;
    keep_alive = should_keep_alive m.parser;
    upgrade = upgraded m.parser;
  }

  unfoldable pub finish : MessageStatus → Message Parser → Message Parser
  unfolding copy_result
  finish complete m = copy_result m
  finish want_more m = m
  finish faild m = m

  -- http_message::parse; it returns the field message_status of the new message
  unfoldable pub parse : Message Parser → Bytes → Message Parser
  unfolding feed finish
  parse m bytes = let m' = feed m bytes in finish m'.message_status m'
