-- ===== src/HttpClient/Served.antt =====
-- The client of src/http_client/main.cpp and the server of src/http_server together.
use mathlib.Core.List.{Perm}
use learn_asio.Base.{
  ◌≡◌, refl, sym, ap, ◌∙◌, true, some, List, ◌∷◌, ◌++◌, map, Bytes, concat, all, ==_refl, ℕ, arith,
}
use learn_asio.Base.Assoc.{Assoc}
use learn_asio.HttpParser.{HttpParser}
use learn_asio.Message.{complete, parse}
use learn_asio.Response.{default_response, stamp, to_buffers}
use learn_asio.Response.Date.{Tm}
use learn_asio.Response.Texts.{number}
use learn_asio.Server.{
  success, Operation, reading, writing, World, Connection, respond, handle_read, new_server,
}
use learn_asio.Server.Steps.{Serves}
use learn_asio.Server.Fresh.Kept.{Serves-AllFresh, reading_made}
use learn_asio.Server.Replies.{served, dispatch_response, clean_default}
use learn_asio.ReadUntil.{ReadUntil}
use learn_asio.HttpClient.{exchange, listed}
use learn_asio.HttpClient.Lines.{plain_header, logged_line}
use learn_asio.HttpClient.Reading.{exchange-to_buffers}

module _ (R : ReadUntil) (H : HttpParser) (order : Assoc → Assoc) where
  open H use {Parser}

  same_buffers :
      {p : ℕ} {a b : List Bytes} {ops : List Operation}
      → writing p a ∷ ops ≡ writing p b ∷ ops
      → a ≡ b
  same_buffers e = ground (arith, e)

  plain_default : all plain_header (default_response H).message.headers ≡ true
  unfolding default_response
  plain_default = refl

  respond-buffers :
      (now : Tm) (c : Connection Parser)
      → c.response ≡ default_response H
      → (respond H order now c).1 ≡ (to_buffers order now (served H order c.request.method)).1
  unfolding respond
  respond-buffers now c e =
      ap (λ r. (to_buffers order now r).1) (dispatch_response H order c.request.method c e)

  handle_read-buffers :
      {w : World Parser} (xs ys : List Operation) (now : Tm) (p : ℕ) (bytes : Bytes)
      (buffers : List Bytes)
      → Serves H order (new_server H order) w
      → w.pending ≡ xs ++ reading p ∷ ys
      → (parse H (w.heap p).request bytes).message_status ≡ complete
      → (handle_read H order success now p bytes (record w { pending = xs ++ ys })).pending
        ≡ writing p buffers ∷ xs ++ ys
      → (to_buffers order now (served H order (parse H (w.heap p).request bytes).method)).1
        ≡ buffers
  unfolding handle_read
  handle_read-buffers {w} xs ys now p bytes buffers r split done written =
      let made = reading_made H order p xs ys w split ((Serves-AllFresh H order r).each p) in
      let c = record (w.heap p) { request = parse H (w.heap p).request bytes } in
      let w' = handle_read H order success now p bytes (record w { pending = xs ++ ys }) in
      let pending : w'.pending ≡ writing p (respond H order now c).1 ∷ xs ++ ys =
        rw (done, ==_refl p) in
      sym (respond-buffers now c made) ∙ same_buffers (sym pending ∙ written)

  -- When a read on `p` completes a request, in any state that the server reaches by accepts, reads
  -- and writes, and the client gets the buffers that the server then writes, cut into any pieces,
  -- one round of the client logs the headers that the server set for that response, whatever the
  -- request's method is.
  pub exchange-handle_read :
      {w : World Parser} (xs ys : List Operation) (now : Tm) (p : ℕ) (bytes : Bytes)
      (buffers cs : List Bytes)
      → ((m : Assoc) → Perm (order m) m)
      → Serves H order (new_server H order) w
      → w.pending ≡ xs ++ reading p ∷ ys
      → (parse H (w.heap p).request bytes).message_status ≡ complete
      → (handle_read H order success now p bytes (record w { pending = xs ++ ys })).pending
        ≡ writing p buffers ∷ xs ++ ys
      → concat cs ≡ concat buffers
      → let r = served H order (parse H (w.heap p).request bytes).method in
        (hs : Assoc) × (exchange R cs ≡ some (listed (map logged_line hs)))
        × Perm hs (stamp now r).message.headers
  unfolding number
  exchange-handle_read {w} xs ys now p bytes buffers cs perm r split done written e =
      let sent = handle_read-buffers xs ys now p bytes buffers r split done written in
      exchange-to_buffers R order now (served H order (parse H (w.heap p).request bytes).method) cs
        perm (clean_default H order) plain_default (e ∙ ap concat (sym sent))
