-- ===== src/CommandLine.antt =====
-- How the programs get the ports they use from the command line: std::stoi and std::atoi, and the
-- main functions of tutorial/101.tcp_server.cpp, 102.tcp_client.cpp and
-- 201.async_tcp_server.cpp, of src/basics/daytime5.cpp, daytime6.cpp and daytime7.cpp, and of
-- src/http_server/main.cpp.
pub mod Clients
pub mod Ports
pub mod Mains
use learn_asio.Base.{
  ℕ, ◌-◌, ◌%◌, ◌^◌, Bool, true, false, not, ◌&&◌, ◌||◌, Option, none, some, List, [], ◌∷◌, Bytes,
  is_empty, ◌==◌, if◌then◌else◌,
}
use learn_asio.Base.Decimal.{to_decimal}
use learn_asio.IStream.{is_digit, skip_space, span, number_of, fits_int}

-- An int: whether it is negative, and its magnitude. The arguments are the program's own, without
-- its name.
abbrev pub CInt : Type 0
CInt = Bool × ℕ

-- The sign and the digits that a text starts with, after spaces; what follows them is ignored.
abbrev pub scan : Bytes → Bool × Bytes
scan [] = (false, [])
scan (c ∷ cs) =
    if c == 45
    then (true, (span is_digit cs).0)
    else if c == 43
    then (false, (span is_digit cs).0)
    else (false, (span is_digit (c ∷ cs)).0)

-- std::stoi; none where it throws
unfoldable pub stoi : Bytes → Option CInt
stoi s =
    let r = scan (skip_space s) in
    let n = number_of 0 r.1 in if is_empty r.1 || not (fits_int r.0 n) then none else some (r.0, n)

-- std::atoi, which gives 0 for a text without a number; none where C gives it no meaning
unfoldable pub atoi : Bytes → Option CInt
atoi s =
    let r = scan (skip_space s) in
    let n = number_of 0 r.1 in if fits_int r.0 n then some (r.0, n) else none

-- The conversion of an int to unsigned short, as the constructor of asio::ip::tcp::endpoint takes it.
unfoldable pub as_port : CInt → ℕ
as_port i = if i.0 then (2 ^ 16 - i.1 % 2 ^ 16) % 2 ^ 16 else i.1 % 2 ^ 16

-- std::to_string on an int
unfoldable pub to_string : CInt → Bytes
to_string i = if i.0 && not (i.1 == 0) then 45 ∷ to_decimal i.1 else to_decimal i.1

-- How a main function begins: it prints its usage and ends; C++ gives it no meaning; an exception
-- ends it, caught by main or not; or it listens on these ports (0 is one that the system chooses),
-- and says that it runs on a number where it prints the one that it was given.
pub data Start : Type 0 where
  usage undefined caught escaped : Start
  listens : Option Bytes → List ℕ → Start

-- Main functions that do not look at the text: the port without an argument, or that of the first.
abbrev first_or : CInt → List Bytes → Option CInt
first_or i [] = some i
first_or i (a ∷ rest) = atoi a

module _ (opens : ℕ → Bool) where
  -- main of 101; `opens` tells whether a socket can be opened and bound to a port.
  unfoldable pub hello_main : List Bytes → Start
  hello_main args = elim (first_or (false, 5678) args) [
    | none ↦ undefined
    | some i ↦ if opens (as_port i) then listens (some (to_string i)) (as_port i ∷ []) else caught
  ]

  -- main of 201, with the constructor of server
  unfoldable pub worker_main : List Bytes → Start
  worker_main args = elim (first_or (false, 6789) args) [
    | none ↦ undefined
    | some i ↦ if opens (as_port i) then listens none (as_port i ∷ []) else escaped
  ]

  -- main of daytime5 up to its loop
  unfoldable pub daytime5_main : List Bytes → Start
  daytime5_main [] = usage
  daytime5_main (a ∷ _ ∷ _) = usage
  daytime5_main (a ∷ []) = elim (stoi a) [
    | none ↦ caught
    | some i ↦ if opens (as_port i) then listens none (as_port i ∷ []) else caught
  ]

  -- main of daytime6, with the constructor of UdpServer
  unfoldable pub daytime6_main : List Bytes → Start
  daytime6_main [] = usage
  daytime6_main (a ∷ _ ∷ _) = usage
  daytime6_main (a ∷ []) = elim (stoi a) [
    | none ↦ escaped
    | some i ↦ if opens (as_port i) then listens none (as_port i ∷ []) else escaped
  ]

  -- main of http_server, with the constructor of server: what cxxopts makes of the arguments is
  -- given, none for an exception and else the number of --port, if there was one. Only an exception
  -- of cxxopts is caught.
  unfoldable pub http_main : Option (Option CInt) → Start
  http_main none = caught
  http_main (some none) =
      if opens (as_port (false, 5000))
      then listens (some (to_string (false, 5000))) (as_port (false, 5000) ∷ [])
      else escaped
  http_main (some (some i)) =
      if opens (as_port i) then listens (some (to_string i)) (as_port i ∷ []) else escaped

-- main of daytime7: the TCP server is made before the second argument is looked at.
unfoldable pub daytime7_main : (ℕ → Bool) → (ℕ → Bool) → List Bytes → Start
daytime7_main opens_tcp opens_udp [] = usage
daytime7_main opens_tcp opens_udp (a ∷ []) = usage
daytime7_main opens_tcp opens_udp (a ∷ b ∷ _ ∷ _) = usage
daytime7_main opens_tcp opens_udp (a ∷ b ∷ []) = elim (stoi a) [
  | none ↦ caught
  | some i ↦ if not (opens_tcp (as_port i)) then caught else elim (stoi b) [
    | none ↦ caught
    | some k ↦ if opens_udp (as_port k) then listens none (as_port i ∷ as_port k ∷ []) else caught
  ]
]

-- main of 102: the service that it asks the resolver for
unfoldable pub service : List Bytes → Option Bytes
service args = elim (first_or (false, 5678) args) [ none ↦ none | some i ↦ some (to_string i) ]
