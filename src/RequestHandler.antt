-- ===== src/RequestHandler.antt =====
-- request_handler (src/http_server/request_handler.h, src/http_server/request_handler.cpp). The
-- four handlers read neither the request nor doc_root_; each writes the response's two members.
use learn_asio.Base.{Bytes, codes}
use learn_asio.Message.{Message}
use learn_asio.Response.{Response}
use learn_asio.Response.Texts.{ok}

abbrev pub placeholder : Bytes
placeholder = codes "complete me"

module _ {P : Type 0} where
  unfoldable pub on_get : Message P → Response P → Response P
  on_get req rsp = record rsp { content = placeholder; status = ok }

  unfoldable pub on_post : Message P → Response P → Response P
  on_post req rsp = record rsp { content = placeholder; status = ok }

  unfoldable pub on_put : Message P → Response P → Response P
  on_put req rsp = record rsp { content = placeholder; status = ok }

  unfoldable pub on_delete : Message P → Response P → Response P
  on_delete req rsp = record rsp { content = placeholder; status = ok }
