-- ===== src/Base/Decimal.antt =====
-- Decimal numbers as std::to_string prints them, and a reader to check them by.
use Prim.Native.Nat.{ℕ, zero, suc, ◌+◌, ◌-◌, ◌*◌, ◌/◌, ◌%◌, ◌<◌, ◌≤◌}
use mathlib.Core.Path.{◌≡◌, refl, subst, ◌∙◌}
use mathlib.Core.Bool.{Bool, true, false, ◌&&◌}
use mathlib.Core.Option.{Option, none, some}
use mathlib.Core.List.{[], ◌∷◌}
use native.Mathlib.Omega.{arith}
use learn_asio.Base.Tests.{ltb, leb, if◌then◌else◌, Bool-cases}
use learn_asio.Base.Lists.{length}
use learn_asio.Base.Strings.{Bytes, is_empty, lacks}
use mathlib.Core.Logic.{inl, inr}

-- The digits of `n` in front of `out`; one round for each digit.
digits : ℕ → ℕ → Bytes → Bytes
digits zero n out = out
digits (suc fuel) n out =
    let more = digits fuel (n / 10) ((48 + n % 10) ∷ out) in
    if ltb n 10 then (48 + n) ∷ out else more

-- std::to_string on an unsigned number; a number has no more digits than its value plus one.
unfoldable pub to_decimal : ℕ → Bytes
unfolding digits
to_decimal n = digits (suc n) n []

abbrev pub is_digit : ℕ → Bool
is_digit c = leb 48 c && leb c 57

unfoldable pub read_digits : ℕ → Bytes → Option ℕ
read_digits n [] = some n
read_digits n (c ∷ s) = if is_digit c then read_digits (n * 10 + (c - 48)) s else none

-- The number that a text of decimal digits stands for.
unfoldable pub of_decimal : Bytes → Option ℕ
unfolding read_digits
of_decimal s = if is_empty s then none else read_digits 0 s

read_digits_cons :
    (n d k : ℕ) (out : Bytes)
    → d < 10
    → n * 10 + d ≡ k
    → read_digits n ((48 + d) ∷ out) ≡ read_digits k out
unfolding read_digits
read_digits_cons n d k out h e = ground arith

read_digits-digits :
    (fuel n : ℕ) (out : Bytes) → n < fuel → read_digits 0 (digits fuel n out) ≡ read_digits n out
unfolding digits
read_digits-digits zero n out h = absurd (omega arith)
read_digits-digits (suc fuel) n out h = elim (Bool-cases (ltb n 10)) [
  | inl last ↦ rw last (read_digits_cons 0 n n out (ground arith) (omega arith))
  | inr more ↦ rw more (
      read_digits-digits fuel (n / 10) ((48 + n % 10) ∷ out) (ground arith)
      ∙ read_digits_cons (n / 10) (n % 10) n out (omega arith) (omega arith))
]

-- What is in front of a character stays in front of it, so the text is not empty.
is_empty-digits : (fuel n c : ℕ) (out : Bytes) → is_empty (digits fuel n (c ∷ out)) ≡ false
unfolding digits
is_empty-digits zero n c out = refl
is_empty-digits (suc fuel) n c out =
    ground (arith, is_empty-digits fuel (n / 10) (48 + n % 10) (c ∷ out))

pub is_empty-to_decimal : (n : ℕ) → is_empty (to_decimal n) ≡ false
unfolding to_decimal
is_empty-to_decimal n = ground (arith, is_empty-digits n (n / 10) (48 + n % 10) [])

pub read-to_decimal : (n : ℕ) → read_digits 0 (to_decimal n) ≡ some n
unfolding to_decimal read_digits
read-to_decimal n = read_digits-digits (suc n) n [] (omega arith)

pub of_decimal-to_decimal : (n : ℕ) → of_decimal (to_decimal n) ≡ some n
unfolding of_decimal
of_decimal-to_decimal n = rw (is_empty-to_decimal n) (read-to_decimal n)

abbrev pub all_digits : Bytes → Bool
all_digits [] = true
all_digits (c ∷ s) = is_digit c && all_digits s

all_digits-digits :
    (fuel n : ℕ) (out : Bytes) → all_digits out ≡ true → all_digits (digits fuel n out) ≡ true
unfolding digits
all_digits-digits zero n out h = h
all_digits-digits (suc fuel) n out h =
    ground (arith, all_digits-digits fuel (n / 10) ((48 + n % 10) ∷ out))

-- A decimal number is made of digits alone.
pub all_digits-to_decimal : (n : ℕ) → all_digits (to_decimal n) ≡ true
unfolding to_decimal
all_digits-to_decimal n = all_digits-digits (suc n) n [] refl

pub lacks-to_decimal : (a n : ℕ) → is_digit a ≡ false → lacks a (to_decimal n) ≡ true
lacks-to_decimal a n h = lacks_of_digits (to_decimal n) (all_digits-to_decimal n)
  where
    lacks_of_digits : (s : Bytes) → all_digits s ≡ true → lacks a s ≡ true
    lacks_of_digits [] d = refl
    lacks_of_digits (c ∷ s) d = ground (arith, lacks_of_digits s)

four_digits :
    (fuel n : ℕ) → 1000 ≤ n → n < 10000 → length (digits (suc (suc (suc (suc fuel)))) n []) ≡ 4
unfolding digits
four_digits fuel n low high = ground (arith, low, high)

pub length-to_decimal : (n : ℕ) → 1000 ≤ n → n < 10000 → length (to_decimal n) ≡ 4
unfolding to_decimal
length-to_decimal n low high =
    subst (λ k. length (digits k n []) ≡ 4) {x = suc (suc (suc (suc (n - 3))))} {y = suc n}
      (omega (arith, low)) (four_digits (n - 3) n low high)
