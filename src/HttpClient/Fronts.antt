-- ===== src/HttpClient/Fronts.antt =====
-- What a buffer holds that has got a front of a response's text, up to the delimiter or more, as
-- the reads of src/http_client/main.cpp leave it.
use learn_asio.Base.{
  ◌≡◌, refl, sym, ap, ◌∙◌, true, false, [], ◌∷◌, ◌++◌, append_assoc, arith, Bytes, lacks,
  lacks-append, ◌⊎◌, inl, inr, all,
}
use learn_asio.Base.Assoc.{Assoc}
use learn_asio.Response.Texts.{crlf}
use learn_asio.Response.Reader.{clean_header, headers_text, headers_text_cons}
use learn_asio.ReadUntil.{starts_with, contains}

-- A front of a text that has the first line's end is the line, its end, and a front of what follows.
pub front_line :
    (l rest p z : Bytes)
    → p ++ z ≡ l ++ 13 ∷ 10 ∷ rest
    → lacks 13 l ≡ true
    → contains crlf p ≡ true
    → (q : Bytes) × (p ≡ l ++ 13 ∷ 10 ∷ q) × (q ++ z ≡ rest)
front_line l rest [] z e h c = absurd (ground (arith, c))
front_line [] rest (x ∷ []) z e h c = absurd (ground (arith, c, e))
front_line [] rest (x ∷ y ∷ p) z e h c = (p, ground (arith, e), ground (arith, e))
front_line (a ∷ l) rest (x ∷ p) z e h c =
    let (q, at, more) =
      front_line l rest p z (ground (arith, e)) (ground (arith, h)) (ground (arith, c, e, h)) in
    (q, ground (arith, e, at), more)

abbrev pub blank_line : Bytes
blank_line = crlf ++ crlf

blank_line-crlf : (p : Bytes) → contains blank_line p ≡ true → contains crlf p ≡ true
blank_line-crlf [] h = absurd (ground (arith, h))
blank_line-crlf (x ∷ []) h = absurd (ground (arith, h))
blank_line-crlf (x ∷ y ∷ p) h = ground (arith, h, blank_line-crlf (y ∷ p))

-- An empty line is not within a line.
skip_line :
    (l q : Bytes)
    → lacks 13 l ≡ true
    → contains blank_line (l ++ 13 ∷ 10 ∷ q) ≡ true
    → (starts_with crlf q ≡ true) ⊎ (contains blank_line q ≡ true)
skip_line [] q h c = ground (arith, c)
skip_line (a ∷ l) q h c = skip_line l q (ground (arith, h)) (ground (arith, h, c))

abbrev pub header_text : Bytes × Bytes → Bytes
header_text (k, v) = k ++ 58 ∷ 32 ∷ v

header_starts :
    (k l q z : Bytes) → lacks 13 k ≡ true → q ++ z ≡ k ++ 58 ∷ l → starts_with crlf q ≡ false
header_starts k l [] z h e = refl
header_starts [] l (x ∷ q) z h e = ground (arith, e)
header_starts (a ∷ k) l (x ∷ q) z h e = ground (arith, e, h)

starts_crlf : (q : Bytes) → starts_with crlf q ≡ true → contains crlf q ≡ true
starts_crlf [] h = absurd (ground (arith, h))
starts_crlf (x ∷ q) h = ground (arith, h)

-- A header line, in front of what follows it.
header_step :
    (k v : Bytes) (hs : Assoc) (content p z : Bytes)
    → clean_header (k, v) ≡ true
    → p ++ z ≡ headers_text ((k, v) ∷ hs) ++ 13 ∷ 10 ∷ content
    → contains blank_line p ≡ true
    → (q : Bytes) × (p ≡ header_text (k, v) ++ 13 ∷ 10 ∷ q)
      × (q ++ z ≡ headers_text hs ++ 13 ∷ 10 ∷ content)
      × ((starts_with crlf q ≡ true) ⊎ (contains blank_line q ≡ true))
header_step k v hs content p z clean e c =
    let l = header_text (k, v) in
    let clean_line : lacks 13 l ≡ true = ground (arith, clean, lacks-append 13 k (58 ∷ 32 ∷ v)) in
    let (q, at, more) =
      front_line l (headers_text hs ++ 13 ∷ 10 ∷ content) p z
        (e ∙ headers_text_cons k v hs (13 ∷ 10 ∷ content)) clean_line (blank_line-crlf p c) in
    (q, at, more, skip_line l q clean_line (ap (contains blank_line) (sym at) ∙ c))

-- A header line does not look like an empty one.
header_not_empty :
    (k v : Bytes) (hs : Assoc) (content q z : Bytes)
    → clean_header (k, v) ≡ true
    → q ++ z ≡ headers_text ((k, v) ∷ hs) ++ 13 ∷ 10 ∷ content
    → starts_with crlf q ≡ false
header_not_empty k v hs content q z clean e =
    let rest = headers_text hs ++ 13 ∷ 10 ∷ content in
    header_starts k (32 ∷ v ++ 13 ∷ 10 ∷ rest) q z (ground (arith, clean)) (
      e
      ∙ headers_text_cons k v hs (13 ∷ 10 ∷ content)
      ∙ append_assoc k (58 ∷ 32 ∷ v) (13 ∷ 10 ∷ rest))

-- Behind the end of a line, a front of the header lines that has the empty line behind them has
-- them all.
after_line :
    (hs : Assoc) (content q z : Bytes)
    → all clean_header hs ≡ true
    → q ++ z ≡ headers_text hs ++ 13 ∷ 10 ∷ content
    → (starts_with crlf q ≡ true) ⊎ (contains blank_line q ≡ true)
    → (q' : Bytes) × (q ≡ headers_text hs ++ 13 ∷ 10 ∷ q')
after_line [] content q z clean e (inl now) =
    let (q', at, _) = front_line [] content q z e refl (starts_crlf q now) in (q', at)
after_line [] content q z clean e (inr later) =
    let (q', at, _) = front_line [] content q z e refl (blank_line-crlf q later) in (q', at)
after_line ((k, v) ∷ hs) content q z clean e (inl now) =
    let not_now = header_not_empty k v hs content q z (ground (arith, clean)) e in
    absurd (ground (arith, now, not_now))
after_line ((k, v) ∷ hs) content q z clean e (inr later) =
    let (r, at, more, end) = header_step k v hs content q z (ground (arith, clean)) e later in
    let (q', rest_at) = after_line hs content r z (ground (arith, clean)) more end in
    (
      q',
      at
          ∙ ap (λ x. header_text (k, v) ++ 13 ∷ 10 ∷ x) rest_at
          ∙ sym (headers_text_cons k v hs (13 ∷ 10 ∷ q')),
    )

pub front_headers :
    (hs : Assoc) (content p z : Bytes)
    → all clean_header hs ≡ true
    → p ++ z ≡ headers_text hs ++ 13 ∷ 10 ∷ content
    → contains blank_line p ≡ true
    → (q : Bytes) × (p ≡ headers_text hs ++ 13 ∷ 10 ∷ q)
front_headers hs content p z clean e c = after_line hs content p z clean e (inr c)

pub contains_append : (d l q : Bytes) → contains d q ≡ true → contains d (l ++ q) ≡ true
contains_append d [] q h = h
contains_append d (c ∷ l) q h = ground (arith, contains_append d l q h)

-- The header lines with their end have the empty line, if there is a header at all.
pub headers_text-blank_line :
    (h : Bytes × Bytes) (hs : Assoc) (content : Bytes)
    → contains blank_line (headers_text (h ∷ hs) ++ 13 ∷ 10 ∷ content) ≡ true
headers_text-blank_line (k, v) [] content =
    ap (contains blank_line) (headers_text_cons k v [] (13 ∷ 10 ∷ content))
    ∙ contains_append blank_line (header_text (k, v)) (13 ∷ 10 ∷ 13 ∷ 10 ∷ content) (ground arith)
headers_text-blank_line (k, v) (g ∷ hs) content =
    ap (contains blank_line) (headers_text_cons k v (g ∷ hs) (13 ∷ 10 ∷ content))
    ∙ contains_append blank_line (header_text (k, v))
        (13 ∷ 10 ∷ (headers_text (g ∷ hs) ++ 13 ∷ 10 ∷ content))
        (contains_append blank_line crlf (headers_text (g ∷ hs) ++ 13 ∷ 10 ∷ content)
          (headers_text-blank_line g hs content))
