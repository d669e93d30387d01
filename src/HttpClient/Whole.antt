-- ===== src/HttpClient/Whole.antt =====
-- The client of src/http_client/main.cpp and the server of src/http_server together, with the
-- request and the response in any pieces.
use mathlib.Core.List.{Perm}
use learn_asio.Base.{
  ℕ, ◌≡◌, ap, ◌∙◌, subst, true, not, some, List, [], ◌∷◌, ◌++◌, map, Bytes, concat, all, is_empty,
}
use learn_asio.Base.Assoc.{Assoc}
use learn_asio.HttpParser.{HttpParser}
use learn_asio.Message.{complete, parse, new_message}
use learn_asio.Message.Pieces.{Streams, SameParse-complete}
use learn_asio.Response.{stamp}
use learn_asio.Response.Date.{Tm}
use learn_asio.Server.{success, Operation, reading, writing, World, handle_read, new_server}
use learn_asio.Server.Steps.{Serves}
use learn_asio.Server.Received.{received}
use learn_asio.Server.Received.Whole.{parse-concat}
use learn_asio.Server.Replies.{served}
use learn_asio.ReadUntil.{ReadUntil}
use learn_asio.HttpClient.{exchange, listed}
use learn_asio.HttpClient.Lines.{logged_line}
use learn_asio.HttpClient.Served.{exchange-handle_read}

module _ (R : ReadUntil) (H : HttpParser) (order : Assoc → Assoc) where
  open H use {Parser}

  -- A client's request reaches the server in any number of reads, none of them without bytes, with
  -- whatever the server does for others between them. When a read completes it: the buffers that
  -- the server then writes, cut into any pieces on their way, make one round of the client log the
  -- headers of the response to the method of the message that parse makes, at once, of all the
  -- bytes of those reads.
  pub exchange-concat :
      {w : World Parser} (p : ℕ) (r : Serves H order (new_server H order) w)
      (xs ys : List Operation) (now : Tm) (bytes : Bytes) (buffers cs : List Bytes)
      → ((m : Assoc) → Perm (order m) m)
      → Streams H
      → all (λ b. not (is_empty b)) (received H order p r ++ bytes ∷ []) ≡ true
      → w.pending ≡ xs ++ reading p ∷ ys
      → let whole = parse H (new_message H) (concat (received H order p r ++ bytes ∷ [])) in
        whole.message_status ≡ complete
        → (handle_read H order success now p bytes (record w { pending = xs ++ ys })).pending
          ≡ writing p buffers ∷ xs ++ ys
        → concat cs ≡ concat buffers
        → let answer = served H order whole.method in
          (hs : Assoc) × (exchange R cs ≡ some (listed (map logged_line hs)))
          × Perm hs (stamp now answer).message.headers
  exchange-concat {w} p r xs ys now bytes buffers cs perm S some_bytes split done written e =
      let same =
        SameParse-complete (parse-concat H order p r xs ys bytes S some_bytes split) done in
      let (hs, logged, headers) =
        exchange-handle_read R H order xs ys now p bytes buffers cs perm r split
          (ap (λ m. m.message_status) same ∙ done) written e in
      (
        hs,
        logged,
        subst (λ m. Perm hs (stamp now (served H order m.method)).message.headers) same headers,
      )
