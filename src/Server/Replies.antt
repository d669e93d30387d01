-- ===== src/Server/Replies.antt =====
-- What a client of src/http_server receives for its request.
use mathlib.Core.List.{Perm}
use learn_asio.Base.{
  ℕ, ◌≡◌, refl, ap, Bool, true, false, some, List, [], ◌∷◌, ◌++◌, Bytes, concat, all, ==_refl,
  if◌then◌else◌,
}
use learn_asio.Base.Assoc.{Assoc}
use learn_asio.HttpParser.{HttpParser}
use learn_asio.Message.{Method, get, post, put, del, invalid, complete, parse}
use learn_asio.Response.{Response, default_response, stamp}
use learn_asio.Response.Date.{Tm}
use learn_asio.Response.Texts.{ok}
use learn_asio.Response.Status.{status_line}
use learn_asio.Response.Reader.{read_response, clean_header}
use learn_asio.Response.Wire.{read_response-to_buffers}
use learn_asio.RequestHandler.{placeholder}
use learn_asio.Server.{
  success, Operation, reading, writing, World, Connection, dispatch, respond, handle_read,
  new_server,
}
use learn_asio.Server.Steps.{Serves}
use learn_asio.Server.Fresh.Kept.{Serves-AllFresh, reading_made}

-- The methods that have a handler.
abbrev pub is_known : Method → Bool
is_known get = true
is_known post = true
is_known put = true
is_known del = true
is_known invalid = false

abbrev pub served_content : Method → Bytes
served_content m = if is_known m then placeholder else []

-- The buffers, sent whole, are the response `r` with `line` for its status line.
module _ {P : Type 0} where
  abbrev pub Delivers : Tm → Response P → Bytes → List Bytes → Type 0
  Delivers now r line buffers =
      (hs : Assoc) × (read_response (concat buffers) ≡ some (line, hs, r.content))
      × Perm hs (stamp now r).message.headers

module _ (H : HttpParser) (order : Assoc → Assoc) where
  open H use {Parser}

  -- What the program answers to a request with the method `m`.
  abbrev pub served : Method → Response Parser
  served m = record (default_response H) { content = served_content m; status = ok }

  abbrev filled : Bytes → Response Parser → Response Parser
  filled content r = record r { content = content; status = ok }

  pub dispatch_response :
      (m : Method) (c : Connection Parser)
      → c.response ≡ default_response H
      → (dispatch m c).response ≡ served m
  unfolding dispatch default_response
  dispatch_response get c e = ap (filled placeholder) e
  dispatch_response post c e = ap (filled placeholder) e
  dispatch_response put c e = ap (filled placeholder) e
  dispatch_response del c e = ap (filled placeholder) e
  dispatch_response invalid c e = e

  pub clean_default : all clean_header (default_response H).message.headers ≡ true
  unfolding default_response
  clean_default = refl

  module _ (perm : (m : Assoc) → Perm (order m) m) where
    respond-Delivers :
        (now : Tm) (c : Connection Parser)
        → c.response ≡ default_response H
        → Delivers now (served c.request.method) (status_line ok) (respond H order now c).1
    unfolding respond
    respond-Delivers now c e =
        rw (dispatch_response c.request.method c e)
          (read_response-to_buffers order now (served c.request.method) perm clean_default)

    -- In any state that the server reaches by accepts, reads and writes, when a read on `p` ends
    -- without an error and completes the request: one write is started in place of the read. Its
    -- buffers, sent whole, are a well-formed response 200 with the content "complete me" if the
    -- method is one of the four that have a handler, and 200 with no content if it is not; its
    -- headers are those of the default response with Date and Content-Length, in some order.
    pub handle_read_complete :
        {w : World Parser} (xs ys : List Operation) (now : Tm) (p : ℕ) (bytes : Bytes)
        → Serves H order (new_server H order) w
        → w.pending ≡ xs ++ reading p ∷ ys
        → (parse H (w.heap p).request bytes).message_status ≡ complete
        → let m = parse H (w.heap p).request bytes in
          let w' = handle_read H order success now p bytes (record w { pending = xs ++ ys }) in
          (buffers : List Bytes) × (w'.pending ≡ writing p buffers ∷ xs ++ ys)
          × Delivers now (served m.method) (status_line ok) buffers
    unfolding handle_read
    handle_read_complete {w} xs ys now p bytes r split done =
        let made = reading_made H order p xs ys w split ((Serves-AllFresh H order r).each p) in
        let c = record (w.heap p) { request = parse H (w.heap p).request bytes } in
        ((respond H order now c).1, rw (done, ==_refl p), respond-Delivers now c made)
