-- ===== src/CommandLine/Ports.antt =====
-- The ports that the programs of CommandLine listen on.
use learn_asio.Base.{
  ℕ, zero, suc, ◌+◌, ◌-◌, ◌*◌, ◌^◌, ◌<◌, ◌≤◌, ◌≡◌, refl, ◌⊎◌, true, false, none, some, [], ◌∷◌,
  Bytes, arith, leb, if◌then◌else◌,
}
use learn_asio.Base.Decimal.{
  to_decimal, is_empty-to_decimal, all_digits, all_digits-to_decimal, read_digits, read-to_decimal,
}
use learn_asio.IStream.{is_digit, skip_space, span, number_of}
use learn_asio.CommandLine.{CInt, scan, stoi, atoi, to_string}

-- A text of digits is read to its end.
span-digits : (s : Bytes) → all_digits s ≡ true → span is_digit s ≡ (s, [])
span-digits [] d = refl
span-digits (c ∷ s) d = ground (arith, d, span-digits s)

scan-digits : (s : Bytes) → all_digits s ≡ true → scan (skip_space s) ≡ (false, s)
scan-digits [] d = refl
scan-digits (c ∷ s) d = ground (arith, d, span-digits s)

number_of-read : (n k : ℕ) (s : Bytes) → read_digits n s ≡ some k → number_of n s ≡ k
unfolding read_digits
number_of-read n k [] e = ground (arith, e)
number_of-read n k (c ∷ s) e = ground (arith, e, number_of-read (n * 10 + (c - 48)) k s)

scan-to_decimal : (n : ℕ) → scan (skip_space (to_decimal n)) ≡ (false, to_decimal n)
scan-to_decimal n = scan-digits (to_decimal n) (all_digits-to_decimal n)

number_of-to_decimal : (n : ℕ) → number_of 0 (to_decimal n) ≡ n
number_of-to_decimal n = number_of-read 0 n (to_decimal n) (read-to_decimal n)

pub stoi-to_decimal :
    (n : ℕ) → stoi (to_decimal n) ≡ (if leb n 2147483647 then some (false, n) else none)
unfolding stoi
stoi-to_decimal n =
    rw (scan-to_decimal n, number_of-to_decimal n, is_empty-to_decimal n) (ground arith)

pub atoi-to_decimal :
    (n : ℕ) → atoi (to_decimal n) ≡ (if leb n 2147483647 then some (false, n) else none)
unfolding atoi
atoi-to_decimal n = rw (scan-to_decimal n, number_of-to_decimal n) refl

-- An int has 31 bits and a sign; -0 is 0.
abbrev IsInt : CInt → Type 0
IsInt i = ((i.0 ≡ false) × (i.1 < 2 ^ 31)) ⊎ ((i.0 ≡ true) × (0 < i.1) × (i.1 ≤ 2 ^ 31))

span-to_decimal : (n : ℕ) → span is_digit (to_decimal n) ≡ (to_decimal n, [])
span-to_decimal n = span-digits (to_decimal n) (all_digits-to_decimal n)

stoi-minus :
    (n : ℕ) → stoi (45 ∷ to_decimal n) ≡ (if leb n 2147483648 then some (true, n) else none)
unfolding stoi
stoi-minus n = rw (span-to_decimal n, number_of-to_decimal n, is_empty-to_decimal n) (ground arith)

atoi-minus :
    (n : ℕ) → atoi (45 ∷ to_decimal n) ≡ (if leb n 2147483648 then some (true, n) else none)
unfolding atoi
atoi-minus n = rw (span-to_decimal n, number_of-to_decimal n) refl

to_string-minus : (n : ℕ) → to_string (true, suc n) ≡ 45 ∷ to_decimal (suc n)
unfolding to_string
to_string-minus n = ground arith

-- Every int is read back from the text that std::to_string makes of it, by std::stoi as by
-- std::atoi.
pub stoi-to_string :
    (i : CInt) → IsInt i → (stoi (to_string i) ≡ some i) × (atoi (to_string i) ≡ some i)
unfolding to_string
stoi-to_string (false, n) h =
    rw (stoi-to_decimal n, atoi-to_decimal n) (ground (arith, h), ground (arith, h))
stoi-to_string (true, zero) h = absurd (ground (arith, h))
stoi-to_string (true, suc n) h =
    rw (to_string-minus n, stoi-minus (suc n), atoi-minus (suc n))
      (ground (arith, h), ground (arith, h))
