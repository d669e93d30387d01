-- ===== src/Daytime/Length.antt =====
-- How long the text of the daytime servers is, and that the client of src/basics/daytime4.cpp gets
-- it whole.
use learn_asio.Base.{
  ℕ, ◌+◌, ◌<◌, ◌≡◌, refl, List, [], ◌∷◌, arith, Bytes, length, length-append, all, ◌==◌, true, zero,
  suc, take-all,
}
use learn_asio.Base.Decimal.{length-to_decimal}
use learn_asio.Response.Date.{Tm, pick, day_names, month_names, two_digits}
use learn_asio.Daytime.{three_wide, make_daytime_string, print_datagram}

length-three_wide : (n : ℕ) → length (three_wide n) ≡ 3
unfolding two_digits
length-three_wide n = ground arith

length-two_digits : (n : ℕ) → length (two_digits n) ≡ 2
unfolding two_digits
length-two_digits n = refl

length-pick :
    (xs : List Bytes) (i : ℕ)
    → all (λ x. length x == 3) xs ≡ true
    → i < length xs
    → length (pick xs i) ≡ 3
length-pick [] i h few = absurd (omega (arith, few))
length-pick (x ∷ xs) zero h few = ground (arith, h)
length-pick (x ∷ xs) (suc i) h few = length-pick xs i (ground (arith, h)) (omega (arith, few))

-- The lengths of the parts.
ruleset lengths = (length-append, length-three_wide, length-two_digits)

length-make_daytime_string :
    (t : Tm) → t.wday < 7 → t.mon < 12 → t.year < 8100 → length (make_daytime_string t) ≡ 25
unfolding make_daytime_string
length-make_daytime_string t day month year = simp (
  lengths,
  all,
  length-pick day_names t.wday refl day,
  length-pick month_names t.mon refl month,
  length-to_decimal (t.year + 1900) (omega arith) (omega (arith, year)),
)

-- The text of a time up to the year 9999, with a day of the week and a month that there are, has 25
-- characters, and so daytime4 prints the whole of it.
print_datagram-make_daytime_string :
    (t : Tm)
    → t.wday < 7
    → t.mon < 12
    → t.year < 8100
    → (length (make_daytime_string t) ≡ 25)
      × (print_datagram (make_daytime_string t) ≡ make_daytime_string t)
unfolding print_datagram
print_datagram-make_daytime_string t day month year =
    let n = length-make_daytime_string t day month year in
    (n, take-all 128 (make_daytime_string t) (omega (arith, n)))
