-- ===== src/Response/Date.antt =====
-- The Date header: put_time with "%a, %d %b %Y %T GMT" in the C locale (response::to_buffers in
-- src/http_server/response.cpp), on the broken-down time that gmtime_r gives.
use learn_asio.Base.{
  ℕ, zero, suc, ◌+◌, ◌/◌, ◌%◌, ◌<◌, ◌≡◌, refl, Bool, true, ◌&&◌, List, [], ◌∷◌, ◌++◌, arith, Bytes,
  lacks, codes, all, leb,
}
use learn_asio.Base.Decimal.{to_decimal, all_digits, all_digits-to_decimal}

-- struct tm: wday from Sunday, mon from January, year from 1900.
pub record Tm : Type 0 where
  pub sec : ℕ
  pub min : ℕ
  pub hour : ℕ
  pub mday : ℕ
  pub mon : ℕ
  pub year : ℕ
  pub wday : ℕ

-- The entry of a table at an index; gmtime_r gives no index outside the two tables.
abbrev pub pick : List Bytes → ℕ → Bytes
pick [] i = []
pick (x ∷ xs) zero = x
pick (x ∷ xs) (suc i) = pick xs i

abbrev pub day_names : List Bytes
day_names =
    codes "Sun"
    ∷ codes "Mon"
    ∷ codes "Tue"
    ∷ codes "Wed"
    ∷ codes "Thu"
    ∷ codes "Fri"
    ∷ codes "Sat"
    ∷ []

abbrev pub month_names : List Bytes
month_names =
    codes "Jan"
    ∷ codes "Feb"
    ∷ codes "Mar"
    ∷ codes "Apr"
    ∷ codes "May"
    ∷ codes "Jun"
    ∷ codes "Jul"
    ∷ codes "Aug"
    ∷ codes "Sep"
    ∷ codes "Oct"
    ∷ codes "Nov"
    ∷ codes "Dec"
    ∷ []

-- %d, %H, %M, %S
unfoldable pub two_digits : ℕ → Bytes
two_digits n = (48 + n / 10) ∷ (48 + n % 10) ∷ []

unfoldable pub put_time : Tm → Bytes
unfolding two_digits
put_time t =
    pick day_names t.wday
    ++ codes ", "
    ++ two_digits t.mday
    ++ codes " "
    ++ pick month_names t.mon
    ++ codes " "
    ++ to_decimal (t.year + 1900)
    ++ codes " "
    ++ two_digits t.hour
    ++ codes ":"
    ++ two_digits t.min
    ++ codes ":"
    ++ two_digits t.sec
    ++ codes " GMT"

-- A character that is printed.
abbrev is_printed : ℕ → Bool
is_printed c = leb 32 c

printed-append : (s t : Bytes) → all is_printed (s ++ t) ≡ (all is_printed s && all is_printed t)
printed-append [] t = refl
printed-append (c ∷ s) t = ground (arith, printed-append s t)

printed-pick :
    (xs : List Bytes) (i : ℕ) → all (all is_printed) xs ≡ true → all is_printed (pick xs i) ≡ true
printed-pick [] i h = refl
printed-pick (x ∷ xs) zero h = ground arith
printed-pick (x ∷ xs) (suc i) h = printed-pick xs i (ground arith)

printed-two_digits : (n : ℕ) → all is_printed (two_digits n) ≡ true
unfolding two_digits
printed-two_digits n = ground arith

printed-to_decimal : (n : ℕ) → all is_printed (to_decimal n) ≡ true
printed-to_decimal n = all_digits-printed (to_decimal n) (all_digits-to_decimal n)
  where
    all_digits-printed : (s : Bytes) → all_digits s ≡ true → all is_printed s ≡ true
    all_digits-printed [] h = refl
    all_digits-printed (c ∷ s) h = ground (arith, all_digits-printed s)

lacks_printed : (a : ℕ) (s : Bytes) → a < 32 → all is_printed s ≡ true → lacks a s ≡ true
lacks_printed a [] h p = refl
lacks_printed a (c ∷ s) h p = ground (arith, lacks_printed a s h)

-- Where the characters of a text come from.
ruleset printed_laws = (printed-append, printed-to_decimal, printed-two_digits)

printed-put_time : (t : Tm) → all is_printed (put_time t) ≡ true
unfolding put_time
printed-put_time t =
    simp (printed_laws, printed-pick day_names t.wday refl, printed-pick month_names t.mon refl)

-- Whatever the time, its text holds no control character.
pub lacks-put_time : (a : ℕ) (t : Tm) → a < 32 → lacks a (put_time t) ≡ true
lacks-put_time a t h = lacks_printed a (put_time t) h (printed-put_time t)
