-- ===== src/HttpClient/Reading.antt =====
-- What the client of src/http_client/main.cpp makes of a response of src/http_server.
use mathlib.Core.List.{Perm}
use learn_asio.Base.{
  suc, ◌≡◌, refl, ap, ◌∙◌, Bool, true, false, Option, some, List, [], ◌∷◌, ◌++◌, map, arith, Bytes,
  concat, length, all, ◌==◌, if◌then◌else◌,
}
use learn_asio.Base.Assoc.{Assoc, insert}
use learn_asio.Base.Decimal.{to_decimal, lacks-to_decimal}
use learn_asio.IStream.{fresh}
use learn_asio.Response.{
  Response, to_buffers, stamp, set_header, headers_buffers, k_date, k_content_length,
}
use learn_asio.Response.Texts.{
  StatusCode, ok, created, accepted, no_content, multiple_choices, moved_permanently,
  moved_temporarily, not_modified, bad_request, unauthorized, forbidden, not_found,
  internal_server_error, not_implemented, bad_gateway, service_unavailable, unlisted, number, crlf,
}
use learn_asio.Response.Date.{Tm, put_time, lacks-put_time}
use learn_asio.Response.Wire.{all-stamp, clean-stamp, all-Perm, text_of_buffers}
use learn_asio.Response.Status.{status_line, sent_as, lacks-status_line, to_buffer-status_line}
use learn_asio.Response.Reader.{clean_header, headers_text, length-headers_text}
use learn_asio.ReadUntil.{ReadUntil, contains}
use learn_asio.HttpClient.{Outcome, not_ok, listed, judge, exchange, read_headers, log_headers}
use learn_asio.HttpClient.Fronts.{
  front_line, front_headers, blank_line, contains_append, headers_text-blank_line,
}
use learn_asio.HttpClient.Lines.{logged_line, plain_header, log_headers-headers_text}

pub judge-status_line :
    (R : ReadUntil) (s : StatusCode) (q : Bytes) (cs : List Bytes)
    → judge R (status_line s ++ 13 ∷ 10 ∷ q) cs ≡ (
        if number (sent_as s) == 200
        then read_headers R (fresh q) cs
        else some (not_ok false (number (sent_as s))))
unfolding judge status_line number to_decimal
judge-status_line R ok q cs = refl
judge-status_line R created q cs = refl
judge-status_line R accepted q cs = refl
judge-status_line R no_content q cs = refl
judge-status_line R multiple_choices q cs = refl
judge-status_line R moved_permanently q cs = refl
judge-status_line R moved_temporarily q cs = refl
judge-status_line R not_modified q cs = refl
judge-status_line R bad_request q cs = refl
judge-status_line R unauthorized q cs = refl
judge-status_line R forbidden q cs = refl
judge-status_line R not_found q cs = refl
judge-status_line R internal_server_error q cs = refl
judge-status_line R not_implemented q cs = refl
judge-status_line R bad_gateway q cs = refl
judge-status_line R service_unavailable q cs = refl
judge-status_line R (unlisted n) q cs = refl

-- What the client logs of a response with these headers.
abbrev pub logged : StatusCode → Assoc → Outcome
logged s hs =
    if number (sent_as s) == 200
    then listed (map logged_line hs)
    else not_ok false (number (sent_as s))

read_headers-headers_text :
    (R : ReadUntil) (hs : Assoc) (content q : Bytes) (cs : List Bytes)
    → all clean_header hs ≡ true
    → all plain_header hs ≡ true
    → contains blank_line (headers_text hs ++ 13 ∷ 10 ∷ content) ≡ true
    → q ++ concat cs ≡ headers_text hs ++ 13 ∷ 10 ∷ content
    → read_headers R (fresh q) cs ≡ some (listed (map logged_line hs))
unfolding read_headers
read_headers-headers_text R hs content q cs clean plain has e =
    let a = R.arrives blank_line q cs (ap (contains blank_line) e ∙ has) in
    let (q', at) = front_headers hs content a.got (concat a.rest) clean (a.whole ∙ e) a.has in
    rw (a.returns, read_headers)
      (ap (λ b. some (listed (log_headers (suc (length b)) (fresh b)))) at
        ∙ ap (λ ls. some (listed ls))
            (log_headers-headers_text (suc (length (headers_text hs ++ 13 ∷ 10 ∷ q'))) hs q'
              (omega (arith, length-headers_text hs (13 ∷ 10 ∷ q'))) clean plain))

if_some :
    (b : Bool) {o : Option Outcome} {x : Outcome} (y : Outcome)
    → o ≡ some x
    → (if b then o else some y) ≡ some (if b then x else y)
if_some true y e = e
if_some false y e = refl

exchange_text :
    (R : ReadUntil) (s : StatusCode) (hs : Assoc) (content : Bytes) (cs : List Bytes)
    → all clean_header hs ≡ true
    → all plain_header hs ≡ true
    → contains blank_line (headers_text hs ++ 13 ∷ 10 ∷ content) ≡ true
    → concat cs ≡ status_line s ++ 13 ∷ 10 ∷ (headers_text hs ++ 13 ∷ 10 ∷ content)
    → exchange R cs ≡ some (logged s hs)
unfolding exchange
exchange_text R s hs content cs clean plain has e =
    let text = headers_text hs ++ 13 ∷ 10 ∷ content in
    let a =
      R.arrives crlf [] cs
        (ap (contains crlf) e ∙ contains_append crlf (status_line s) (13 ∷ 10 ∷ text) refl) in
    let (q, at, more) =
      front_line (status_line s) text a.got (concat a.rest) (a.whole ∙ e) (lacks-status_line s)
        a.has in
    rw (a.returns, exchange)
      (ap (λ b. judge R b a.rest) at
        ∙ judge-status_line R s q a.rest
        ∙ if_some (number (sent_as s) == 200) (not_ok false (number (sent_as s)))
            (read_headers-headers_text R hs content q a.rest clean plain has more))

insert_some : (k v : Bytes) (m : Assoc) → all (λ _. false) (insert k v m) ≡ false
unfolding insert
insert_some k v [] = refl
insert_some k v ((j, w) ∷ m) = ground arith

-- The headers of a stamped response are not empty, in whatever order they are walked.
stamped_some :
    {P : Type 0} (now : Tm) (r : Response P)
    → all (λ _. false) (stamp now r).message.headers ≡ false
unfolding stamp set_header
stamped_some now r =
    insert_some k_content_length (to_decimal (length r.content))
      (insert k_date (put_time now) r.message.headers)

has_blank_line :
    (hs : Assoc) (content : Bytes)
    → all (λ _. false) hs ≡ false
    → contains blank_line (headers_text hs ++ 13 ∷ 10 ∷ content) ≡ true
has_blank_line [] content h = absurd (ground (arith, h))
has_blank_line (h ∷ hs) content some_of = headers_text-blank_line h hs content

module _ (R : ReadUntil) {P : Type 0} where
  -- What one round logs, with the headers in the order in which the server has walked them.
  pub exchange_order :
      (order : Assoc → Assoc) (now : Tm) (r : Response P) (cs : List Bytes)
      → ((m : Assoc) → Perm (order m) m)
      → all clean_header r.message.headers ≡ true
      → all plain_header r.message.headers ≡ true
      → concat cs ≡ concat (to_buffers order now r).1
      → exchange R cs ≡ some (logged r.status (order (stamp now r).message.headers))
  unfolding to_buffers
  exchange_order order now r cs perm clean plain e =
      let m = (stamp now r).message.headers in
      let p = perm m in
      let plain_m =
        all-stamp plain_header now r (lacks-put_time 10 now (omega arith))
          (lacks-to_decimal 10 (length r.content) refl) plain in
      let first =
        ap (λ b. concat (b ∷ headers_buffers (order m) ++ crlf ∷ r.content ∷ []))
          (to_buffer-status_line r.status) in
      exchange_text R r.status (order m) r.content cs
        (all-Perm clean_header p ∙ clean-stamp now r clean) (all-Perm plain_header p ∙ plain_m)
        (has_blank_line (order m) r.content (all-Perm (λ _. false) p ∙ stamped_some now r))
        (e ∙ first ∙ text_of_buffers (order m) (status_line r.status) r.content)

  -- When the buffers of a response of the server come in, cut into any pieces, one round of the
  -- client logs the response's headers, as a permutation of them and each line with its carriage
  -- return, if the response goes out as a 200; and else the number that it goes out under. It never
  -- throws, and never takes the response for an invalid one. The headers that the program put in
  -- hold no carriage return and no line feed, and their names no colon.
  pub exchange-to_buffers :
      (order : Assoc → Assoc) (now : Tm) (r : Response P) (cs : List Bytes)
      → ((m : Assoc) → Perm (order m) m)
      → all clean_header r.message.headers ≡ true
      → all plain_header r.message.headers ≡ true
      → concat cs ≡ concat (to_buffers order now r).1
      → (hs : Assoc) × (exchange R cs ≡ some (logged r.status hs))
        × Perm hs (stamp now r).message.headers
  exchange-to_buffers order now r cs perm clean plain e =
      let m = (stamp now r).message.headers in
      (order m, exchange_order order now r cs perm clean plain e, perm m)
