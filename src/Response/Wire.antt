-- ===== src/Response/Wire.antt =====
-- response::to_buffers against the reader: what arrives when all the buffers are sent.
use mathlib.Core.List.{Perm, Permᴰ}
use mathlib.Core.Logic.{∥∥₁_elim}
use mathlib.Core.Bool.{Bool-set}
use learn_asio.Base.{
  ◌>>=◌, ◌≡◌, refl, ap, ◌∙◌, Bool, true, some, List, [], ◌∷◌, ◌++◌, append_assoc, append-nil, arith,
  Bytes, length, concat, concat-append, all, if◌then◌else◌, beq, beq_iff,
}
use learn_asio.Base.Assoc.{Assoc, lookup, insert, lookup-insert}
use learn_asio.Base.Decimal.{to_decimal, of_decimal, of_decimal-to_decimal, lacks-to_decimal}
use learn_asio.Response.{
  Response, k_date, k_content_length, set_header, headers_buffers, stamp, to_buffers,
}
use learn_asio.Response.Texts.{crlf}
use learn_asio.Response.Date.{Tm, put_time, lacks-put_time}
use learn_asio.Response.Status.{status_line, to_buffer-status_line, lacks-status_line}
use learn_asio.Response.Reader.{clean_header, headers_text, read_response, read_response_lem}

-- A permutation changes no test of all entries.
module _ {ℓ} {A : Type ℓ} (p : A → Bool) where
  all-Permᴰ : {xs ys : List A} → Permᴰ xs ys → all p xs ≡ all p ys
  all-Permᴰ Permᴰ.nil = refl
  all-Permᴰ (Permᴰ.cons e d) = rw (e, all-Permᴰ d)
  all-Permᴰ (Permᴰ.swap e f) = rw (e, f) (ground arith)
  all-Permᴰ (Permᴰ.trans d e) = all-Permᴰ d ∙ all-Permᴰ e

  pub all-Perm : {xs ys : List A} → Perm xs ys → all p xs ≡ all p ys
  all-Perm d = ∥∥₁_elim d (Bool-set _ _) all-Permᴰ

all-insert :
    (p : Bytes × Bytes → Bool) (k v : Bytes) (m : Assoc)
    → p (k, v) ≡ true
    → all p m ≡ true
    → all p (insert k v m) ≡ true
unfolding insert
all-insert p k v [] h hm = ground arith
all-insert p k v ((j, w) ∷ m) h hm = ground (arith, beq_iff j k, all-insert p k v m)

pub text_of_buffers :
    (hs : Assoc) (line content : Bytes)
    → concat ((line ++ crlf) ∷ headers_buffers hs ++ crlf ∷ content ∷ [])
      ≡ line ++ 13 ∷ 10 ∷ (headers_text hs ++ 13 ∷ 10 ∷ content)
text_of_buffers hs line content =
    rw (concat-append (headers_buffers hs) (crlf ∷ content ∷ [])) (simp (append_assoc, append-nil))

module _ {P : Type 0} where
  -- A test of all the response's headers as to_buffers sends them.
  pub all-stamp :
      (p : Bytes × Bytes → Bool) (now : Tm) (r : Response P)
      → p (k_date, put_time now) ≡ true
      → p (k_content_length, to_decimal (length r.content)) ≡ true
      → all p r.message.headers ≡ true
      → all p (stamp now r).message.headers ≡ true
  unfolding stamp set_header
  all-stamp p now r date size h =
      all-insert p k_content_length (to_decimal (length r.content))
        (insert k_date (put_time now) r.message.headers) size
        (all-insert p k_date (put_time now) r.message.headers date h)

  pub clean-stamp :
      (now : Tm) (r : Response P)
      → all clean_header r.message.headers ≡ true
      → all clean_header (stamp now r).message.headers ≡ true
  clean-stamp now r h =
      all-stamp clean_header now r (lacks-put_time 13 now (omega arith))
        (lacks-to_decimal 13 (length r.content) refl) h

  -- Sent whole, in any order of the headers, the buffers are a well-formed HTTP response with
  -- the response's status line, its content, and as headers a permutation of the response's own
  -- after Date and Content-Length are set, provided that no header that the program put in holds
  -- a carriage return, and no name a colon.
  pub read_response-to_buffers :
      (order : Assoc → Assoc) (now : Tm) (r : Response P)
      → ((m : Assoc) → Perm (order m) m)
      → all clean_header r.message.headers ≡ true
      → let (r', buffers) = to_buffers order now r in
        (hs : Assoc) × (read_response (concat buffers) ≡ some (status_line r.status, hs, r.content))
        × Perm hs r'.message.headers
  unfolding to_buffers
  read_response-to_buffers order now r perm clean =
      let hs = order (stamp now r).message.headers in
      (
        hs,
        rw (to_buffer-status_line r.status) (
            ap read_response (text_of_buffers hs (status_line r.status) r.content)
            ∙ read_response_lem (status_line r.status) r.content hs (lacks-status_line r.status) (
                all-Perm clean_header (perm (stamp now r).message.headers)
                ∙ clean-stamp now r clean)),
        perm (stamp now r).message.headers,
      )

  -- The Content-Length that to_buffers sends reads back as the length of the content that it
  -- sends, and the Date is the time that it was given; any other header is as it was.
  lookup-to_buffers :
      (order : Assoc → Assoc) (now : Tm) (r : Response P) (k : Bytes)
      → let (r', buffers) = to_buffers order now r in
        ((lookup k_content_length r'.message.headers >>= of_decimal) ≡ some (length r.content))
        × (lookup k_date r'.message.headers ≡ some (put_time now))
        × (lookup k r'.message.headers ≡ (
            if beq k_content_length k
            then some (to_decimal (length r.content))
            else if beq k_date k
            then some (put_time now)
            else lookup k r.message.headers))
  unfolding to_buffers stamp set_header
  lookup-to_buffers order now r k =
      let dated = insert k_date (put_time now) r.message.headers in
      let size = to_decimal (length r.content) in
      (
        rw (lookup-insert k_content_length k_content_length size dated)
            (of_decimal-to_decimal (length r.content)),
        lookup-insert k_content_length k_date size dated
            ∙ lookup-insert k_date k_date (put_time now) r.message.headers,
        lookup-insert k_content_length k size dated
            ∙ rw (lookup-insert k_date k (put_time now) r.message.headers),
      )
