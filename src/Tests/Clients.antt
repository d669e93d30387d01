-- ===== src/Tests/Clients.antt =====
-- The theorems on the client of src/http_client/main.cpp at concrete exchanges.
use learn_asio.Base.{
  arith, ℕ, zero, suc, take, List, ◌≡◌, ◌+◌, append-nil, append_assoc, ap, sym, ◌∙◌, Bool-cases,
  inl, inr, none, if◌then◌else◌, refl, true, false, some, [], ◌∷◌, ◌++◌, List, map, Bytes, codes,
  concat, length,
}
use learn_asio.Base.Decimal.{to_decimal}
use learn_asio.Response.{Response, default_response, stock_response, stamp, to_buffers}
use learn_asio.Response.Texts.{crlf, ok, number}
use learn_asio.ReadUntil.{ReadUntil, Call, Arrives, contains, starts_with}
use learn_asio.HttpClient.{invalid_response, not_ok, exchange, run_client, request, judge}
use learn_asio.HttpClient.Reading.{logged}
use learn_asio.HttpClient.Rounds.{Round, run_client-to_buffers}
use learn_asio.HttpClient.CutOff.{run_client-cut_off}
use learn_asio.Tests.Toy.{toy, Phase}
use learn_asio.Tests.Responses.{some_day, same_order, missing}
use learn_asio.Tests.Servers.{perm_same}

-- A call of read_until that takes piece after piece until the delimiter is there.
abbrev piecewise : Call
piecewise delim b [] = if contains delim b then some (b, []) else none
piecewise delim b (c ∷ cs) =
    let more = piecewise delim (b ++ c) cs in if contains delim b then some (b, c ∷ cs) else more

pub piecewise-Arrives :
    (delim b : Bytes) (cs : List Bytes)
    → contains delim (b ++ concat cs) ≡ true
    → Arrives piecewise delim b cs
piecewise-Arrives delim b [] h =
    let h' : contains delim b ≡ true = ap (contains delim) (sym (append-nil b)) ∙ h in
    record { got = b; rest = []; returns = rw h'; has = h'; whole = refl }
piecewise-Arrives delim b (c ∷ cs) h = elim (Bool-cases (contains delim b)) [
  | inl now ↦ record { got = b; rest = c ∷ cs; returns = rw now; has = now; whole = refl }
  | inr later ↦
      let r =
        piecewise-Arrives delim (b ++ c) cs
          (ap (contains delim) (append_assoc b c (concat cs)) ∙ h) in
      record {
        got = r.got;
        rest = r.rest;
        returns = rw later r.returns;
        has = r.has;
        whole = r.whole ∙ append_assoc b c (concat cs);
      }
]

starts_with_append : (d b s : Bytes) → starts_with d b ≡ true → starts_with d (b ++ s) ≡ true
starts_with_append [] b s h = refl
starts_with_append (x ∷ d) [] s h = absurd (ground (arith, h))
starts_with_append (x ∷ d) (y ∷ b) s h = ground (arith, h, starts_with_append d b s)

contains_front : (d b s : Bytes) → contains d b ≡ true → contains d (b ++ s) ≡ true
contains_front [] [] [] h = refl
contains_front [] [] (y ∷ s) h = refl
contains_front (x ∷ d) [] s h = absurd (ground (arith, h))
contains_front d (y ∷ b) s h =
    ground (arith, h, contains_front d b s, starts_with_append d (y ∷ b) s)

pub piecewise-none :
    (delim b : Bytes) (cs : List Bytes)
    → contains delim (b ++ concat cs) ≡ false
    → piecewise delim b cs ≡ none
piecewise-none delim b [] h =
    let h' : contains delim b ≡ false = ap (contains delim) (sym (append-nil b)) ∙ h in rw h' refl
piecewise-none delim b (c ∷ cs) h = elim (Bool-cases (contains delim b)) [
  | inl now ↦ absurd (ground (arith, h, contains_front delim b (concat (c ∷ cs)) now))
  | inr later ↦
      rw later
        (piecewise-none delim (b ++ c) cs (ap (contains delim) (append_assoc b c (concat cs)) ∙ h))
]

abbrev pub reader : ReadUntil
reader = record { read_until = piecewise; arrives = piecewise-Arrives; cut_off = piecewise-none }

-- A page that is found.
abbrev page : Response Phase
page = record (default_response toy) { content = codes "hi" }

-- The page, and one that is missing, each in the pieces in which it was written.
abbrev rounds : List (Round Phase)
rounds =
    record { now = some_day; response = page; pieces = (to_buffers same_order some_day page).1 }
    ∷ record {
      now = some_day;
      response = missing;
      pieces = (to_buffers same_order some_day missing).1;
    }
    ∷ []

run_client-to_buffers_example :
    run_client reader (map (λ t. t.pieces) rounds)
    ≡ (logged ok (stamp some_day page).message.headers ∷ not_ok false 404 ∷ [], false)
unfolding default_response stock_response number to_decimal
run_client-to_buffers_example =
    run_client-to_buffers reader same_order rounds perm_same
      ((refl, refl, refl), ((refl, refl, refl), tt))

abbrev drop : ℕ → Bytes → Bytes
drop zero s = s
drop (suc n) [] = []
drop (suc n) (c ∷ s) = drop n s

-- The page as it goes out, of which only 30 bytes come.
abbrev page_text : Bytes
page_text = concat (to_buffers same_order some_day page).1

run_client-cut_off_example :
    run_client reader (map (λ t. t.pieces) rounds ++ (take 30 page_text ∷ []) ∷ [] ∷ [])
    ≡ (logged ok (stamp some_day page).message.headers ∷ not_ok false 404 ∷ [], true)
unfolding to_buffers default_response stock_response number to_decimal
run_client-cut_off_example =
    run_client-cut_off reader same_order rounds some_day page (take 30 page_text ∷ [])
      (drop 30 page_text) ([] ∷ []) perm_same ((refl, refl, refl), ((refl, refl, refl), tt)) refl
      refl (inl refl)

-- A status line alone, an answer that is no HTTP, and one that was cut off.
missing_page :
    exchange reader (codes "HTTP/1.1 404 Not Fou" ∷ (codes "nd" ++ crlf) ∷ [])
    ≡ some (not_ok false 404)
unfolding exchange judge request
missing_page = refl

not_http :
    run_client reader (((codes "SSH-2.0" ++ crlf) ∷ []) ∷ [] ∷ []) ≡ (invalid_response ∷ [], true)
unfolding run_client exchange judge
not_http = refl

-- What follows the empty line of the request is two bytes longer than its Content-Length.
abbrev head : Bytes
head =
    codes "GET /index.html HTTP/1.0"
    ++ crlf
    ++ codes "Host: localhost"
    ++ crlf
    ++ codes "Accept: */*"
    ++ crlf
    ++ codes "Content-Type: text/plain; charset=utf-8"
    ++ crlf
    ++ codes "Content-Length: 2048"
    ++ crlf
    ++ crlf

length-request : length request ≡ length head + 2050
unfolding request
length-request = refl
