-- ===== src/Response/Reader.antt =====
-- A reader of HTTP responses, written from the protocol and not from the program, to say what the
-- buffers of response::to_buffers stand for: a status line, header lines, an empty line, content.
use learn_asio.Base.{
  list_laws, ℕ, zero, suc, ◌≤◌, ◌<◌, ◌≡◌, refl, ap, ◌∙◌, Bool, true, ◌&&◌, Option, none, some, [],
  ◌∷◌, ◌++◌, ◌>>=◌, arith, Bytes, length, length-append, concat, lacks, lacks-append, all, ◌==◌,
  if◌then◌else◌,
}
use learn_asio.Base.Assoc.{Assoc}
use learn_asio.Response.{headers_buffers}

abbrev cons_first : ℕ → Bytes × Bytes → Option (Bytes × Bytes)
cons_first c (l, rest) = some (c ∷ l, rest)

-- The text before the first pair of characters `a`, `b`, and the text after it.
pub cut_at : ℕ → ℕ → Bytes → Option (Bytes × Bytes)
cut_at a b [] = none
cut_at a b (c ∷ []) = none
cut_at a b (c ∷ d ∷ s) =
    let rest = cut_at a b (d ∷ s) in
    if c == a && d == b then some ([], s) else rest >>= cons_first c

cut_at-append :
    (a b : ℕ) (l rest : Bytes) → lacks a l ≡ true → cut_at a b (l ++ a ∷ b ∷ rest) ≡ some (l, rest)
unfolding cut_at
cut_at-append a b [] rest h = ground arith
cut_at-append a b (c ∷ []) rest h = ground arith
cut_at-append a b (c ∷ d ∷ l) rest h = ground (arith, cut_at-append a b (d ∷ l) rest)

-- The header lines up to the first empty line, and the text after that.
pub read_headers : ℕ → Bytes → Option (Assoc × Bytes)
read_headers zero s = none
read_headers (suc fuel) s = do
  (line, rest) ← cut_at 13 10 s
  elim line [
    | [] ↦ some ([], rest)
    | c ∷ cs ↦ do
      header ← cut_at 58 32 (c ∷ cs)
      (headers, content) ← read_headers fuel rest
      some (header ∷ headers, content)
  ]

-- The status line, the headers and the content; a text has fewer lines than characters.
unfoldable pub read_response : Bytes → Option (Bytes × Assoc × Bytes)
unfolding cut_at read_headers
read_response s = do
  (line, rest) ← cut_at 13 10 s
  (headers, content) ← read_headers (suc (length rest)) rest
  some (line, headers, content)

abbrev pub clean_header : Bytes × Bytes → Bool
clean_header (k, v) = lacks 13 k && lacks 58 k && lacks 13 v

-- One header line, whatever follows it.
cut_header_line :
    (k v rest : Bytes)
    → clean_header (k, v) ≡ true
    → cut_at 13 10 (k ++ 58 ∷ 32 ∷ v ++ 13 ∷ 10 ∷ rest) ≡ some (k ++ 58 ∷ 32 ∷ v, rest)
cut_header_line k v rest h =
    cut_at-append 13 10 (k ++ 58 ∷ 32 ∷ v) rest (ground (arith, lacks-append 13 k (58 ∷ 32 ∷ v)))

read_headers_line :
    (fuel : ℕ) (k v rest : Bytes)
    → clean_header (k, v) ≡ true
    → read_headers (suc fuel) (k ++ 58 ∷ 32 ∷ v ++ 13 ∷ 10 ∷ rest)
      ≡ (read_headers fuel rest >>= λ r. some ((k, v) ∷ r.0, r.1))
unfolding read_headers
read_headers_line fuel [] v rest h =
    rw (cut_header_line [] v rest h) (rw (cut_at-append 58 32 [] v refl))
read_headers_line fuel (c ∷ k) v rest h =
    rw (cut_header_line (c ∷ k) v rest h) (rw (cut_at-append 58 32 (c ∷ k) v (ground arith)))

abbrev pub headers_text : Assoc → Bytes
headers_text hs = concat (headers_buffers hs)

pub headers_text_cons :
    (k v : Bytes) (hs : Assoc) (rest : Bytes)
    → headers_text ((k, v) ∷ hs) ++ rest ≡ k ++ 58 ∷ 32 ∷ v ++ 13 ∷ 10 ∷ (headers_text hs ++ rest)
headers_text_cons k v hs rest = simp list_laws

-- A header takes at least one character.
pub length-headers_text : (hs : Assoc) (rest : Bytes) → length hs ≤ length (headers_text hs ++ rest)
length-headers_text [] rest = omega arith
length-headers_text ((k, v) ∷ hs) rest = rw (headers_text_cons k v hs rest) (
    omega (
      arith,
      length-append (k ++ 58 ∷ 32 ∷ v) (13 ∷ 10 ∷ (headers_text hs ++ rest)),
      length-headers_text hs rest,
    ))

read_headers-headers_text :
    (fuel : ℕ) (hs : Assoc) (content : Bytes)
    → length hs < fuel
    → all clean_header hs ≡ true
    → read_headers fuel (headers_text hs ++ 13 ∷ 10 ∷ content) ≡ some (hs, content)
unfolding read_headers cut_at
read_headers-headers_text zero hs content f h = elim f [ ]
read_headers-headers_text (suc fuel) [] content f h = refl
read_headers-headers_text (suc fuel) ((k, v) ∷ hs) content f h =
    ap (read_headers (suc fuel)) (headers_text_cons k v hs (13 ∷ 10 ∷ content))
    ∙ read_headers_line fuel k v (headers_text hs ++ 13 ∷ 10 ∷ content) (ground arith)
    ∙ rw (read_headers-headers_text fuel hs content (omega arith) (ground arith))

-- The reader takes a laid-out response apart again.
pub read_response_lem :
    (line content : Bytes) (hs : Assoc)
    → lacks 13 line ≡ true
    → all clean_header hs ≡ true
    → read_response (line ++ 13 ∷ 10 ∷ (headers_text hs ++ 13 ∷ 10 ∷ content))
      ≡ some (line, hs, content)
unfolding read_response
read_response_lem line content hs l h =
    let rest = headers_text hs ++ 13 ∷ 10 ∷ content in
    rw (cut_at-append 13 10 line rest l) (
      rw (
        read_headers-headers_text (suc (length rest)) hs content
          (omega (arith, length-headers_text hs (13 ∷ 10 ∷ content))) h))
