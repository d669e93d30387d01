-- ===== src/Hello.antt =====
-- The blocking TCP programs of tutorial: the loop of 101.tcp_server.cpp, and what
-- 102.tcp_client.cpp prints.
use learn_asio.Base.{
  ℕ, zero, suc, ◌-◌, ◌≤◌, ◌≡◌, refl, sym, ap, subst, ◌∙◌, ◌>>=◌, Bool, true, false, ◌&&◌, Option,
  none, some, List, [], ◌∷◌, ◌++◌, append-nil, append_assoc, arith, Bytes, codes, length,
  length-append, take, lacks, ◌==◌, if◌then◌else◌, Bool-cases, inl, inr, All,
}
use learn_asio.CString.{c_string, c_string_lem, c_string-none}

-- What the calls of one round of 101 do: accept and remote_endpoint return or throw; the write
-- sends everything, or throws after some bytes.
pub record Visit : Type 0 where
  pub socket : ℕ
  pub accepts : Bool
  pub has_peer : Bool
  pub cut : Option ℕ

-- The buffer of the string literal, with its NUL.
abbrev pub hello_text : Bytes
hello_text = codes "Hello, world!\n" ++ 0 ∷ []

-- One round of 101 that writes to `socket`, if accept and remote_endpoint return, and the rounds
-- after it.
unfoldable pub hello_round : Bool → Option ℕ → ℕ → List (ℕ × Bytes) × Bool → List (ℕ × Bytes) × Bool
hello_round false cut socket more = ([], true)
hello_round true (some n) socket more = ((socket, take n hello_text) ∷ [], true)
hello_round true none socket more = ((socket, hello_text) ∷ more.0, more.1)

-- The loop of 101: what it writes to which socket, and whether an exception has ended it.
unfoldable pub hello_each : List Visit → List (ℕ × Bytes) × Bool
unfolding hello_round
hello_each [] = ([], false)
hello_each (v ∷ rest) = hello_round (v.accepts && v.has_peer) v.cut v.socket (hello_each rest)

abbrev zeros : ℕ → Bytes
zeros zero = []
zeros (suc n) = 0 ∷ zeros n

-- What 102 prints when its read_some, into a buffer of 1024 zeros, gives the bytes `b`.
unfoldable pub print_received : Bytes → Option Bytes
unfolding c_string
print_received b = do
  text ← c_string (b ++ zeros (1024 - length b))
  some (codes "Received: " ++ text ++ 10 ∷ [])

take-append : (n : ℕ) (b : Bytes) → (rest : Bytes) × (take n b ++ rest ≡ b)
take-append zero b = (b, refl)
take-append (suc n) [] = ([], refl)
take-append (suc n) (c ∷ b) = let (rest, e) = take-append n b in (rest, ap (λ x. c ∷ x) e)

-- What is written to a socket is the whole text, or a front of it.
abbrev IsFront : ℕ × Bytes → Type 0
IsFront (socket, b) = (rest : Bytes) × (b ++ rest ≡ hello_text)

hello_round-IsFront :
    (ok : Bool) (cut : Option ℕ) (socket : ℕ) (more : List (ℕ × Bytes) × Bool)
    → All IsFront more.0
    → All IsFront (hello_round ok cut socket more).0
unfolding hello_round
hello_round-IsFront false cut socket more h = tt
hello_round-IsFront true (some n) socket more h = (take-append n hello_text, tt)
hello_round-IsFront true none socket more h = (([], append-nil hello_text), h)

hello_each-IsFront : (vs : List Visit) → All IsFront (hello_each vs).0
unfolding hello_each
hello_each-IsFront [] = tt
hello_each-IsFront (v ∷ vs) =
    hello_round-IsFront (v.accepts && v.has_peer) v.cut v.socket (hello_each vs)
      (hello_each-IsFront vs)

IsFront-middle : (xs ys : List (ℕ × Bytes)) (w : ℕ × Bytes) → All IsFront (xs ++ w ∷ ys) → IsFront w
IsFront-middle [] ys w h = h.0
IsFront-middle (x ∷ xs) ys w h = IsFront-middle xs ys w h.1

-- Reading a front of a text and its NUL as a string gives the front of the text.
c_string-front :
    (text b rest zs : Bytes)
    → lacks 0 text ≡ true
    → b ++ rest ≡ text ++ 0 ∷ []
    → c_string (b ++ 0 ∷ zs) ≡ some (take (length b) text)
unfolding c_string
c_string-front [] [] rest zs h e = refl
c_string-front [] (c ∷ b) rest zs h e = ground (arith, e)
c_string-front (d ∷ text) [] rest zs h e = refl
c_string-front (d ∷ text) (c ∷ b) rest zs h e =
    ground (arith, h, e, c_string-front text b rest zs (ground (arith, h)) (ground (arith, e)))

abbrev pub received_text : Bytes → Bytes
received_text text = codes "Received: " ++ text ++ 10 ∷ []

zeros_cons : (n : ℕ) → 1 ≤ n → zeros n ≡ 0 ∷ zeros (n - 1)
zeros_cons zero h = absurd (omega (arith, h))
zeros_cons (suc n) h = ap (λ k. 0 ∷ zeros k) (omega arith)

-- 102 prints what it was sent if there is no NUL in it, unless it fills the buffer.
print_received_lem :
    (b : Bytes)
    → length b ≤ 1024
    → lacks 0 b ≡ true
    → print_received b ≡ (if length b == 1024 then none else some (received_text b))
unfolding print_received
print_received_lem b fits clean = elim (Bool-cases (length b == 1024)) [
  | inl full ↦
      let e : 1024 - length b ≡ 0 = ground (arith, full) in
      let all_of : c_string (b ++ zeros (1024 - length b)) ≡ none =
        ap (λ n. c_string (b ++ zeros n)) e ∙ ap c_string (append-nil b) ∙ c_string-none b clean in
      rw (full, all_of) refl
  | inr less ↦
      let e = zeros_cons (1024 - length b) (ground (arith, less, fits)) in
      let front : c_string (b ++ zeros (1024 - length b)) ≡ some b =
        ap (λ z. c_string (b ++ z)) e ∙ c_string_lem b (zeros (1024 - length b - 1)) clean in
      rw (less, front) refl
]

-- Whatever the clients of 101 do, and however its writes end: when 102 has read, in one piece, a
-- front of what 101 has written to a socket, it prints that front of the text, without the NUL
-- that 101 sends behind the text.
print_received-hello_each :
    (vs : List Visit) (xs ys : List (ℕ × Bytes)) (socket : ℕ) (b rest : Bytes)
    → (hello_each vs).0 ≡ xs ++ (socket, b ++ rest) ∷ ys
    → print_received b ≡ some (received_text (take (length b) (codes "Hello, world!\n")))
unfolding print_received
print_received-hello_each vs xs ys socket b rest e =
    let (more, whole) =
      IsFront-middle xs ys (socket, b ++ rest) (subst (All IsFront) e (hello_each-IsFront vs)) in
    let split : b ++ (rest ++ more) ≡ hello_text = sym (append_assoc b rest more) ∙ whole in
    let short : length b ≤ 15 = omega (arith, length-append b (rest ++ more), ap length split) in
    let zs = zeros_cons (1024 - length b) (omega (arith, short)) in
    let front : c_string (b ++ zeros (1024 - length b))
        ≡ some (take (length b) (codes "Hello, world!\n")) =
      ap (λ z. c_string (b ++ z)) zs
      ∙ c_string-front (codes "Hello, world!\n") b (rest ++ more) (zeros (1024 - length b - 1)) refl
          split in
    rw front refl
