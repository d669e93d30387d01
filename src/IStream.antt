-- ===== src/IStream.antt =====
-- std::istream over an asio::streambuf, as src/http_client/main.cpp reads from it: extraction of a
-- word and of an int, and std::getline, with the two state bits that they set.
use learn_asio.Base.{
  ℕ, ◌+◌, ◌-◌, ◌*◌, Bool, true, false, not, ◌&&◌, ◌||◌, [], ◌∷◌, Bytes, is_empty, leb, ◌==◌,
  if◌then◌else◌,
}

-- The characters in the buffer, eofbit and failbit.
pub record IStream : Type 0 where
  pub chars : Bytes
  pub eof : Bool
  pub fail : Bool

abbrev pub fresh : Bytes → IStream
fresh b = record { chars = b; eof = false; fail = false }

abbrev pub is_good : IStream → Bool
is_good s = not s.eof && not s.fail

-- std::isspace in the C locale
abbrev pub is_space : ℕ → Bool
is_space c = c == 32 || (leb 9 c && leb c 13)

abbrev pub is_digit : ℕ → Bool
is_digit c = leb 48 c && leb c 57

abbrev pub skip_space : Bytes → Bytes
skip_space [] = []
skip_space (c ∷ cs) = if is_space c then skip_space cs else c ∷ cs

-- The longest front whose characters satisfy the test, and the rest.
abbrev pub span : (ℕ → Bool) → Bytes → Bytes × Bytes
span p [] = ([], [])
span p (c ∷ cs) = let r = span p cs in if p c then (c ∷ r.0, r.1) else ([], c ∷ cs)

-- What a failed extraction leaves, and one that has used the buffer up to `rest`.
abbrev pub failed : IStream → IStream
failed s = record s { fail = true }

abbrev pub exhausted : IStream
exhausted = record { chars = []; eof = true; fail = true }

abbrev pub used : Bytes → Bool → IStream
used rest bad = record { chars = rest; eof = is_empty rest; fail = bad }

abbrev word_in : Bytes → Bytes × IStream
word_in [] = ([], exhausted)
word_in (c ∷ cs) = let r = span (λ d. not (is_space d)) (c ∷ cs) in (r.0, used r.1 false)

-- stream >> text
unfoldable pub extract_word : IStream → Bytes × IStream
extract_word s = if is_good s then word_in (skip_space s.chars) else ([], failed s)

abbrev pub number_of : ℕ → Bytes → ℕ
number_of n [] = n
number_of n (c ∷ cs) = number_of (n * 10 + (c - 48)) cs

-- An int of 32 bits: whether it is negative, and its magnitude.
abbrev pub fits_int : Bool → ℕ → Bool
fits_int negative n = if negative then leb n 2147483648 else leb n 2147483647

abbrev signed : Bool → Bytes → (Bool × ℕ) × IStream
signed negative cs =
    let r = span is_digit cs in
    let n = number_of 0 r.0 in ((negative, n), used r.1 (is_empty r.0 || not (fits_int negative n)))

abbrev int_in : Bytes → (Bool × ℕ) × IStream
int_in [] = ((false, 0), exhausted)
int_in (c ∷ cs) =
    if c == 45 then signed true cs else if c == 43 then signed false cs else signed false (c ∷ cs)

-- stream >> number; what it gives is read only if it did not fail
unfoldable pub extract_int : IStream → (Bool × ℕ) × IStream
extract_int s = if is_good s then int_in (skip_space s.chars) else ((false, 0), failed s)

-- A line and what follows its end; without an end the line runs to the end of the buffer.
abbrev pub cut_line : Bytes → Bytes × Bytes × Bool
cut_line [] = ([], [], true)
cut_line (c ∷ cs) = let r = cut_line cs in if c == 10 then ([], cs, false) else (c ∷ r.0, r.1, r.2)

abbrev line_in : Bytes → Bytes × IStream
line_in [] = ([], exhausted)
line_in (c ∷ cs) =
    let r = cut_line (c ∷ cs) in (r.0, record { chars = r.1; eof = r.2; fail = false })

-- std::getline(stream, text)
unfoldable pub get_line : IStream → Bytes × IStream
get_line s = if is_good s then line_in s.chars else ([], failed s)
