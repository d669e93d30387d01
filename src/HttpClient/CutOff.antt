-- ===== src/HttpClient/CutOff.antt =====
-- The client of src/http_client/main.cpp and a connection that ends too early.
use learn_asio.Base.{
  ◌≡◌, refl, sym, ap, ◌∙◌, ◌⊎◌, inl, inr, Bool-cases, true, false, none, List, [], ◌∷◌, ◌++◌,
  append_assoc, map, arith, Bytes, concat, All,
}
use mathlib.Core.List.{Perm}
use learn_asio.Base.Assoc.{Assoc}
use learn_asio.Response.{Response, to_buffers, stamp, headers_buffers}
use learn_asio.Response.Texts.{StatusCode, number, crlf}
use learn_asio.Response.Status.{status_line, sent_as, lacks-status_line, to_buffer-status_line}
use learn_asio.Response.Wire.{text_of_buffers}
use learn_asio.Response.Reader.{headers_text}
use learn_asio.ReadUntil.{ReadUntil, contains}
use learn_asio.HttpClient.{exchange, read_headers, judge, run_client}
use learn_asio.HttpClient.Fronts.{front_line, blank_line, contains_append}
use learn_asio.HttpClient.Reading.{judge-status_line, exchange_order}
use learn_asio.HttpClient.Rounds.{Round, IsServed, log_of, run_client_step}
use learn_asio.Response.Date.{Tm}
use learn_asio.IStream.{fresh}

-- What follows a status line has no empty line if the whole has none.
no_blank_line : (l q : Bytes) → contains blank_line (l ++ q) ≡ false → contains blank_line q ≡ false
no_blank_line l q h = elim (Bool-cases (contains blank_line q)) [
  | inl has ↦ absurd (ground (arith, h, contains_append blank_line l q has))
  | inr lacks ↦ lacks
]

read_headers-none :
    (R : ReadUntil) (q : Bytes) (cs : List Bytes)
    → contains blank_line (q ++ concat cs) ≡ false
    → read_headers R (fresh q) cs ≡ none
unfolding read_headers
read_headers-none R q cs h = rw (R.cut_off blank_line q cs h, read_headers) refl

-- A 200 of which less than the headers has come.
exchange_cut :
    (R : ReadUntil) (s : StatusCode) (text missing : Bytes) (cs : List Bytes)
    → number (sent_as s) ≡ 200
    → concat cs ++ missing ≡ status_line s ++ 13 ∷ 10 ∷ text
    → contains blank_line (concat cs) ≡ false
    → exchange R cs ≡ none
unfolding exchange
exchange_cut R s text missing cs two_hundred e lacks =
    elim (Bool-cases (contains crlf (concat cs))) [
      | inr no_line ↦ rw (R.cut_off crlf [] cs no_line, exchange) refl
      | inl has ↦
          let a = R.arrives crlf [] cs has in
          let (q, at, more) =
            front_line (status_line s) text a.got (concat a.rest ++ missing)
              (sym (append_assoc a.got (concat a.rest) missing)
                ∙ ap (λ l. l ++ missing) a.whole
                ∙ e)
              (lacks-status_line s) a.has in
          let whole : status_line s ++ 13 ∷ 10 ∷ (q ++ concat a.rest) ≡ concat cs =
            sym (append_assoc (status_line s) (13 ∷ 10 ∷ q) (concat a.rest))
            ∙ ap (λ l. l ++ concat a.rest) (sym at)
            ∙ a.whole in
          let no_end = no_blank_line (13 ∷ 10 ∷ []) (q ++ concat a.rest) (
            no_blank_line (status_line s) (13 ∷ 10 ∷ (q ++ concat a.rest))
              (ap (contains blank_line) whole ∙ lacks)) in
          rw (a.returns, exchange)
            (ap (λ b. judge R b a.rest) at
              ∙ judge-status_line R s q a.rest
              ∙ ground (arith, two_hundred, read_headers-none R q a.rest no_end))
    ]

run_client-none :
    (R : ReadUntil) (c : List Bytes) (cs : List (List Bytes))
    → exchange R c ≡ none
    → run_client R (c ∷ cs) ≡ ([], true)
unfolding run_client
run_client-none R c cs e = rw (e, run_client) refl

module _ (R : ReadUntil) {P : Type 0} (order : Assoc → Assoc) where
  exchange_ends :
      (now : Tm) (r : Response P) (cut : List Bytes) (missing : Bytes)
      → concat cut ++ missing ≡ concat (to_buffers order now r).1
      → contains blank_line (concat cut) ≡ false
      → (number (sent_as r.status) ≡ 200) ⊎ (contains crlf (concat cut) ≡ false)
      → exchange R cut ≡ none
  unfolding to_buffers exchange
  exchange_ends now r cut missing e lacks (inr no_line) =
      rw (R.cut_off crlf [] cut no_line, exchange) refl
  exchange_ends now r cut missing e lacks (inl two_hundred) =
      let m = (stamp now r).message.headers in
      let first =
        ap (λ b. concat (b ∷ headers_buffers (order m) ++ crlf ∷ r.content ∷ []))
          (to_buffer-status_line r.status) in
      exchange_cut R r.status (headers_text (order m) ++ 13 ∷ 10 ∷ r.content) missing cut
        two_hundred (e ∙ first ∙ text_of_buffers (order m) (status_line r.status) r.content) lacks

  -- If, after some whole responses of the server, a connection brings one that is cut off, before the
  -- empty line that ends its headers if it goes out as a 200, and else within its status line, the
  -- client logs what it logs of the whole ones, and then an exception ends its loop, whatever
  -- connections would follow. The headers that the program has put into the whole responses hold no
  -- carriage return and no line feed, and their names no colon.
  pub run_client-cut_off :
      (ts : List (Round P)) (now : Tm) (r : Response P) (cut : List Bytes) (missing : Bytes)
      (others : List (List Bytes))
      → ((m : Assoc) → Perm (order m) m)
      → All (IsServed R order) ts
      → concat cut ++ missing ≡ concat (to_buffers order now r).1
      → contains blank_line (concat cut) ≡ false
      → (number (sent_as r.status) ≡ 200) ⊎ (contains crlf (concat cut) ≡ false)
      → run_client R (map (λ t. t.pieces) ts ++ cut ∷ others) ≡ (map (log_of R order) ts, true)
  run_client-cut_off [] now r cut missing others perm served e lacks either =
      run_client-none R cut others (exchange_ends now r cut missing e lacks either)
  run_client-cut_off (t ∷ ts) now r cut missing others perm served e lacks either =
      let (clean, plain, came) = served.0 in
      run_client_step R t.pieces (map (λ x. x.pieces) ts ++ cut ∷ others) (log_of R order t)
        (exchange_order R order t.now t.response t.pieces perm clean plain came)
      ∙ ap (λ l. (log_of R order t ∷ l.0, l.1))
          (run_client-cut_off ts now r cut missing others perm served.1 e lacks either)
