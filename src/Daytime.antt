-- ===== src/Daytime.antt =====
-- The daytime programs, src/basics/daytime1.cpp to daytime7.cpp: the text that all the servers
-- send, and the programs that wait for each of their calls.
pub mod Length
pub mod Udp
pub mod Both
pub mod Tcp
use learn_asio.Base.{
  ℕ, ◌+◌, Bool, true, false, Option, none, some, List, [], ◌∷◌, ◌++◌, Bytes, codes, take, ltb, ◌||◌,
  if◌then◌else◌,
}
use learn_asio.Base.Decimal.{to_decimal}
use learn_asio.Response.Date.{Tm, pick, day_names, month_names, two_digits}

-- %3d
abbrev pub three_wide : ℕ → Bytes
three_wide n = 32 ∷ (if ltb n 10 then 32 ∷ (48 + n) ∷ [] else two_digits n)

-- ctime, on the broken-down local time
unfoldable pub make_daytime_string : Tm → Bytes
make_daytime_string t =
    pick day_names t.wday
    ++ codes " "
    ++ pick month_names t.mon
    ++ three_wide t.mday
    ++ codes " "
    ++ two_digits t.hour
    ++ codes ":"
    ++ two_digits t.min
    ++ codes ":"
    ++ two_digits t.sec
    ++ codes " "
    ++ to_decimal (t.year + 1900)
    ++ 10 ∷ []

-- What a wait for a datagram ends with: its sender, or an error with its text, and the time.
pub record Datagram : Type 0 where
  pub sender : ℕ
  pub error : Option Bytes
  pub now : Tm

-- What a wait for a client ends with: its socket, whether there is an error instead, whether
-- remote_endpoint then throws, and the time.
pub record Client : Type 0 where
  pub socket : ℕ
  pub failed : Bool
  pub throws : Bool
  pub now : Tm

-- The loop of daytime5: what it sends to whom, and whether an exception has ended it. A send that
-- fails is ignored.
unfoldable pub answer_each : List Datagram → List (ℕ × Bytes) × Bool
answer_each [] = ([], false)
answer_each (d ∷ rest) =
    let more = answer_each rest in
    elim d.error [
      | some _ ↦ ([], true)
      | none ↦ ((d.sender, make_daytime_string d.now) ∷ more.0, more.1)
    ]

-- The loop of daytime2: what it writes to whom, and whether an exception has ended it. A write that
-- fails is ignored.
unfoldable pub greet_each : List Client → List (ℕ × Bytes) × Bool
greet_each [] = ([], false)
greet_each (c ∷ rest) =
    let more = greet_each rest in
    if c.failed || c.throws
    then ([], true)
    else ((c.socket, make_daytime_string c.now) ∷ more.0, more.1)

-- What a call of read_some gives.
pub data Received : Type 0 where
  bytes : Bytes → Received
  eof : Received
  failure : Received

-- The loop of daytime1: what it prints, and whether it has ended by an exception.
unfoldable pub print_each : List Received → Bytes × Bool
print_each [] = ([], false)
print_each (bytes b ∷ rest) = let more = print_each rest in (b ++ more.0, more.1)
print_each (eof ∷ rest) = ([], false)
print_each (failure ∷ rest) = ([], true)

-- What daytime4 prints of a datagram: as much of it as its buffer of 128 bytes holds.
unfoldable pub print_datagram : Bytes → Bytes
print_datagram b = take 128 b
