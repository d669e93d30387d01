-- ===== src/HttpClient/Lines.antt =====
-- The header lines that the client of src/http_client/main.cpp logs.
use learn_asio.Base.{
  ℕ, zero, suc, ◌<◌, ◌≡◌, refl, sym, ap, ◌∙◌, Bool, true, false, [], ◌∷◌, ◌++◌, map, append_assoc,
  arith, Bytes, length, lacks, lacks-append, beq, all, ◌&&◌,
}
use learn_asio.Base.Assoc.{Assoc}
use learn_asio.IStream.{fresh, get_line, cut_line}
use learn_asio.Response.Reader.{clean_header, headers_text, headers_text_cons}
use learn_asio.HttpClient.{log_headers}
use learn_asio.HttpClient.Fronts.{header_text}

-- A header line as std::getline gives it, with its carriage return.
abbrev pub logged_line : Bytes × Bytes → Bytes
logged_line h = header_text h ++ 13 ∷ []

cut_line-append : (l q : Bytes) → lacks 10 l ≡ true → cut_line (l ++ 10 ∷ q) ≡ (l, q, false)
cut_line-append [] q h = refl
cut_line-append (c ∷ l) q h = ground (arith, cut_line-append l q)

get_line-append : (l q : Bytes) → lacks 10 l ≡ true → get_line (fresh (l ++ 10 ∷ q)) ≡ (l, fresh q)
unfolding get_line
get_line-append [] q h = refl
get_line-append (c ∷ l) q h = rw (cut_line-append (c ∷ l) q h)

-- A header without line feeds.
abbrev pub plain_header : Bytes × Bytes → Bool
plain_header (k, v) = lacks 10 k && lacks 10 v

lacks-logged_line :
    (k v : Bytes) → plain_header (k, v) ≡ true → lacks 10 (logged_line (k, v)) ≡ true
lacks-logged_line k v h =
    ground (arith, lacks-append 10 (k ++ 58 ∷ 32 ∷ v) (13 ∷ []), lacks-append 10 k (58 ∷ 32 ∷ v))

logged_line_more :
    (k v : Bytes) → clean_header (k, v) ≡ true → beq (logged_line (k, v)) (13 ∷ []) ≡ false
logged_line_more [] v h = refl
logged_line_more (c ∷ k) v h = ground arith

log_headers_end : (fuel : ℕ) (q : Bytes) → log_headers (suc fuel) (fresh (13 ∷ 10 ∷ q)) ≡ []
unfolding log_headers get_line
log_headers_end fuel q = refl

log_headers_line :
    (fuel : ℕ) (b l rest : Bytes)
    → get_line (fresh b) ≡ (l, fresh rest)
    → beq l (13 ∷ []) ≡ false
    → log_headers (suc fuel) (fresh b) ≡ l ∷ log_headers fuel (fresh rest)
unfolding log_headers
log_headers_line fuel b l rest got more = rw (got, more)

pub log_headers-headers_text :
    (fuel : ℕ) (hs : Assoc) (q : Bytes)
    → length hs < fuel
    → all clean_header hs ≡ true
    → all plain_header hs ≡ true
    → log_headers fuel (fresh (headers_text hs ++ 13 ∷ 10 ∷ q)) ≡ map logged_line hs
log_headers-headers_text zero hs q f clean plain = elim f [ ]
log_headers-headers_text (suc fuel) [] q f clean plain = log_headers_end fuel q
log_headers-headers_text (suc fuel) ((k, v) ∷ hs) q f clean plain =
    let rest = headers_text hs ++ 13 ∷ 10 ∷ q in
    let got : get_line (fresh (headers_text ((k, v) ∷ hs) ++ 13 ∷ 10 ∷ q))
        ≡ (logged_line (k, v), fresh rest) =
      ap (λ b. get_line (fresh b))
        (headers_text_cons k v hs (13 ∷ 10 ∷ q)
          ∙ sym (append_assoc (header_text (k, v)) (13 ∷ []) (10 ∷ rest)))
      ∙ get_line-append (logged_line (k, v)) rest (lacks-logged_line k v (ground (arith, plain))) in
    log_headers_line fuel (headers_text ((k, v) ∷ hs) ++ 13 ∷ 10 ∷ q) (logged_line (k, v)) rest got
      (logged_line_more k v (ground (arith, clean)))
    ∙ ap (λ ls. logged_line (k, v) ∷ ls)
        (log_headers-headers_text fuel hs q (omega (arith, f)) (ground (arith, clean))
          (ground (arith, plain)))
