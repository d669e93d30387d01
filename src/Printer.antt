-- ===== src/Printer.antt =====
-- class Printer of src/basics/timer5.cpp with its handlers on a strand (need_sync_): two timers
-- that count together. On the strand one handler runs to its end before the next one starts.
pub mod Unsynced
pub mod Ending
use learn_asio.Base.{
  ℕ, suc, ◌+◌, ◌%◌, ◌^◌, ◌≤◌, ◌≡◌, refl, ◌⊎◌, inr, Bool, true, false, arith, ltb, if◌then◌else◌,
}

abbrev pub k_count : ℕ
k_count = 100

-- cnt_, and whether a wait of each timer is under way. The expiry times only decide which handler
-- runs first.
pub record Printer : Type 0 where
  pub cnt : ℕ
  pub waiting1 : Bool
  pub waiting2 : Bool

-- Printer::Printer
abbrev pub new_printer : Printer
new_printer = record { cnt = 0; waiting1 = true; waiting2 = true }

-- cnt_++ on an unsigned of 32 bits
abbrev pub increment : ℕ → ℕ
increment c = (c + 1) % 2 ^ 32

-- Printer::print1
unfoldable pub print1 : Printer → Printer
print1 p = if ltb p.cnt k_count then record p { cnt = increment p.cnt; waiting1 = true } else p

-- Printer::print2
unfoldable pub print2 : Printer → Printer
print2 p = if ltb p.cnt k_count then record p { cnt = increment p.cnt; waiting2 = true } else p

-- The states after a number of handlers have run, each when its timer's wait has ended.
pub data Ticks : ℕ → Printer → Type 0 where
  here : Ticks 0 new_printer
  fired1 :
      {n : ℕ} {p : Printer}
      → Ticks n p
      → p.waiting1 ≡ true
      → Ticks (suc n) (print1 (record p { waiting1 = false }))
  fired2 :
      {n : ℕ} {p : Printer}
      → Ticks n p
      → p.waiting2 ≡ true
      → Ticks (suc n) (print2 (record p { waiting2 = false }))

abbrev idle : Bool → ℕ
idle true = 0
idle false = 1

-- Every handler has counted, but for the last one of each timer; and both timers wait until the
-- count is full.
record IsCounting (n : ℕ) (p : Printer) : Type 0 where
  total : n ≡ p.cnt + idle p.waiting1 + idle p.waiting2
  below : p.cnt ≤ k_count
  both : (p.cnt ≡ k_count) ⊎ ((p.waiting1 ≡ true) × (p.waiting2 ≡ true))

print1-IsCounting :
    (n : ℕ) (p : Printer)
    → p.waiting1 ≡ true
    → IsCounting n p
    → IsCounting (suc n) (print1 (record p { waiting1 = false }))
unfolding print1
print1-IsCounting n p w v = record {
  total = ground (arith, v.total, v.below, w);
  below = ground (arith, v.below);
  both = ground (arith, v.both, v.below);
}

print2-IsCounting :
    (n : ℕ) (p : Printer)
    → p.waiting2 ≡ true
    → IsCounting n p
    → IsCounting (suc n) (print2 (record p { waiting2 = false }))
unfolding print2
print2-IsCounting n p w v = record {
  total = ground (arith, v.total, v.below, w);
  below = ground (arith, v.below);
  both = ground (arith, v.both, v.below);
}

Ticks-IsCounting : {n : ℕ} {p : Printer} → Ticks n p → IsCounting n p
Ticks-IsCounting Ticks.here = record { total = refl; below = omega arith; both = inr (refl, refl) }
Ticks-IsCounting (Ticks.fired1 {n} {p} t w) = print1-IsCounting n p w (Ticks-IsCounting t)
Ticks-IsCounting (Ticks.fired2 {n} {p} t w) = print2-IsCounting n p w (Ticks-IsCounting t)

-- In whatever order the two timers fire, at most 102 handlers run; the count never exceeds 100, and
-- is the number of the handlers that ran, less one for each timer that waits no more; and when
-- neither waits any more, the count is 100 and 102 handlers have run.
pub Ticks-cnt :
    {n : ℕ} {p : Printer}
    → Ticks n p
    → (n ≤ 102)
      × (p.cnt ≤ k_count)
      × (n ≡ p.cnt + (if p.waiting1 then 0 else 1) + (if p.waiting2 then 0 else 1))
      × ((p.waiting1 ≡ true) ⊎ ((p.waiting2 ≡ true) ⊎ ((p.cnt ≡ k_count) × (n ≡ 102))))
Ticks-cnt {n} {p} t = let v = Ticks-IsCounting t in ground (arith, v)
