-- ===== src/Echo.antt =====
-- The UDP programs of tutorial: the loop of 103.udp_server.cpp and that of 104.udp_client.cpp.
use learn_asio.Base.{
  ◌>>=◌, ℕ, zero, suc, ◌-◌, ◌≤◌, ◌<◌, ◌≡◌, refl, ap, ◌∙◌, Bool, true, ◌&&◌, Option, none, some,
  List, [], ◌∷◌, ◌++◌, append-nil, arith, Bytes, length, length-append, take, take-all, lacks, ltb,
  ◌==◌, if◌then◌else◌, all, Bool-cases, inl, inr,
}
use learn_asio.Streambuf.{consume}
use learn_asio.CString.{c_string, c_string_lem}

-- What one round of the loop of 103 sends back for a datagram that reaches its socket: as much of it
-- as its buffer of 1024 bytes holds.
unfoldable pub send_back : Bytes → Bytes
send_back datagram = take 1024 datagram

-- The buffer of 104, of 128 bytes, after a word was read into it; `none` is the overflow, whose
-- meaning is not defined.
unfoldable pub read_word : Bytes → Bytes → Option Bytes
unfolding consume
read_word word buf =
    if ltb (length word) 128 then some (word ++ 0 ∷ consume (suc (length word)) buf) else none

-- The buffer after a datagram was received into it.
unfoldable pub receive_into : Bytes → Bytes → Bytes
unfolding consume
receive_into datagram buf = let kept = take 128 datagram in kept ++ consume (length kept) buf

-- The loop of 104: what it prints. Each round has what its array held at first, and the word that
-- it reads; `reply` is the answer to a datagram.
unfoldable pub talk : (Bytes → Bytes) → List (Bytes × Bytes) → Option (List Bytes)
unfolding read_word receive_into c_string
talk reply [] = some []
talk reply ((buf, word) ∷ rest) =
    let more = talk reply rest in
    do
      filled ← read_word word buf
      line ← c_string (receive_into (reply filled) filled)
      lines ← more
      some (line ∷ lines)

-- A buffer of 128 bytes, and a word without a NUL; and whether the word and its NUL fit in.
abbrev pub is_round : Bytes × Bytes → Bool
is_round (buf, word) = length buf == 128 && lacks 0 word

abbrev pub fits : Bytes × Bytes → Bool
fits (buf, word) = ltb (length word) 128

length-consume : (n : ℕ) (b : Bytes) → length (consume n b) ≡ length b - n
unfolding consume
length-consume n [] = omega arith
length-consume zero (c ∷ b) = omega arith
length-consume (suc n) (c ∷ b) = omega (arith, length-consume n b)

consume-all : (n : ℕ) (b : Bytes) → length b ≤ n → consume n b ≡ []
unfolding consume
consume-all n [] h = refl
consume-all zero (c ∷ b) h = absurd (omega (arith, h))
consume-all (suc n) (c ∷ b) h = consume-all n b (omega (arith, h))

-- A datagram that fills the buffer takes its place.
receive_whole : (b : Bytes) → length b ≡ 128 → receive_into b b ≡ b
unfolding receive_into
receive_whole b h =
    let whole : take 128 b ≡ b = take-all 128 b (omega (arith, h)) in
    ap (λ x. x ++ consume (length x) b) whole
    ∙ ap (λ x. b ++ x) (consume-all (length b) b (omega arith))
    ∙ append-nil b

-- One round of 104 with a server that answers its datagrams with themselves.
talk_round :
    (reply : Bytes → Bytes)
    → ((d : Bytes) → length d ≡ 128 → reply d ≡ d)
    → (buf word : Bytes) → length buf ≡ 128
    → length word < 128
    → lacks 0 word ≡ true
    → let filled = word ++ 0 ∷ consume (suc (length word)) buf in
      c_string (receive_into (reply filled) filled) ≡ some word
talk_round reply echoes buf word h short clean =
    let rest = consume (suc (length word)) buf in
    let filled = word ++ 0 ∷ rest in
    let size : length filled ≡ 128 =
      omega
        (arith, h, short, length-append word (0 ∷ rest), length-consume (suc (length word)) buf) in
    ap (λ x. c_string (receive_into x filled)) (echoes filled size)
    ∙ ap c_string (receive_whole filled size)
    ∙ c_string_lem word rest clean

abbrev pub words : List (Bytes × Bytes) → List Bytes
words [] = []
words ((buf, word) ∷ rest) = word ∷ words rest

-- The loop of 103 would be such a server, if its socket were bound to the port; it never is.
send_back_echoes : (d : Bytes) → length d ≡ 128 → send_back d ≡ d
unfolding send_back
send_back_echoes d size = take-all 1024 d (omega (arith, size))

-- With a server that answers each datagram of 128 bytes with itself, the loop of 104 prints exactly
-- the words that it reads, as long as each of them is shorter than its buffer of 128 bytes and has
-- no NUL, whatever the buffer held before; if one of them is longer, what it prints is not defined.
pub talk_echoed :
    (reply : Bytes → Bytes)
    → ((d : Bytes) → length d ≡ 128 → reply d ≡ d)
    → (rounds : List (Bytes × Bytes)) → all is_round rounds ≡ true
    → talk reply rounds ≡ (if all fits rounds then some (words rounds) else none)
unfolding talk read_word
talk_echoed reply echoes [] h = refl
talk_echoed reply echoes ((buf, word) ∷ rest) h = elim (Bool-cases (ltb (length word) 128)) [
  | inl short ↦
      let line =
        talk_round reply echoes buf word (ground (arith, h)) (ground (arith, short))
          (ground (arith, h)) in
      rw (short, line, talk_echoed reply echoes rest (ground (arith, h))) (ground arith)
  | inr long ↦ rw long refl
]
