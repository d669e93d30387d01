-- ===== src/CommandLine/Mains.antt =====
-- What the main functions of CommandLine do with the texts they are given.
use learn_asio.Base.{
  ℕ, ◌%◌, ◌^◌, ◌<◌, ◌≡◌, ◌∙◌, Bool, true, false, none, some, [], ◌∷◌, Bytes, arith,
}
use learn_asio.Base.Decimal.{to_decimal}
use learn_asio.CommandLine.{
  stoi, atoi, scan, as_port, to_string, caught, escaped, listens, hello_main, worker_main,
  daytime5_main, daytime6_main, daytime7_main,
}
use learn_asio.CommandLine.Ports.{stoi-to_decimal, atoi-to_decimal}
use learn_asio.IStream.{skip_space}

-- With the decimal text of a number below 2 ^ 31 as its argument, every one of the servers listens
-- on that number modulo 2 ^ 16, if the port is free: 101, 201, daytime5 and daytime6, and daytime7
-- with one number for each of its two ports.
pub listens_on :
    (opens opens_udp : ℕ → Bool) (n m : ℕ)
    → n < 2 ^ 31
    → m < 2 ^ 31
    → opens (n % 2 ^ 16) ≡ true
    → opens_udp (m % 2 ^ 16) ≡ true
    → (hello_main opens (to_decimal n ∷ []) ≡ listens (some (to_decimal n)) (n % 2 ^ 16 ∷ []))
      × (worker_main opens (to_decimal n ∷ []) ≡ listens none (n % 2 ^ 16 ∷ []))
      × (daytime5_main opens_udp (to_decimal m ∷ []) ≡ listens none (m % 2 ^ 16 ∷ []))
      × (daytime6_main opens_udp (to_decimal m ∷ []) ≡ listens none (m % 2 ^ 16 ∷ []))
      × (daytime7_main opens opens_udp (to_decimal n ∷ to_decimal m ∷ [])
          ≡ listens none (n % 2 ^ 16 ∷ m % 2 ^ 16 ∷ []))
unfolding hello_main worker_main daytime5_main daytime6_main daytime7_main as_port to_string
listens_on opens opens_udp n m h k o p =
    let n_atoi : atoi (to_decimal n) ≡ some (false, n) = atoi-to_decimal n ∙ ground (arith, h) in
    let n_stoi : stoi (to_decimal n) ≡ some (false, n) = stoi-to_decimal n ∙ ground (arith, h) in
    let m_stoi : stoi (to_decimal m) ≡ some (false, m) = stoi-to_decimal m ∙ ground (arith, k) in
    (
      ground (arith, n_atoi, o),
      ground (arith, n_atoi, o),
      ground (arith, m_stoi, p),
      ground (arith, m_stoi, p),
      ground (arith, n_stoi, m_stoi, o, p),
    )

stoi-no_digits : (s : Bytes) → (scan (skip_space s)).1 ≡ [] → stoi s ≡ none
unfolding stoi
stoi-no_digits s e = ground (arith, e)

atoi-no_digits : (s : Bytes) → (scan (skip_space s)).1 ≡ [] → (b : Bool) × (atoi s ≡ some (b, 0))
unfolding atoi
atoi-no_digits s e = ((scan (skip_space s)).0, ground (arith, e))

-- With a text that does not begin with a number, 101 and 201 listen on a port that the system
-- chooses, if there is one, and 101 says that it runs on 0; daytime5 and daytime7 end by an
-- exception that their main functions catch, and daytime6 by one that nobody catches.
pub not_a_number :
    (opens opens_udp : ℕ → Bool) (s t : Bytes)
    → (scan (skip_space s)).1 ≡ []
    → opens 0 ≡ true
    → (hello_main opens (s ∷ []) ≡ listens (some (to_decimal 0)) (0 ∷ []))
      × (worker_main opens (s ∷ []) ≡ listens none (0 ∷ []))
      × (daytime5_main opens_udp (s ∷ []) ≡ caught)
      × (daytime6_main opens_udp (s ∷ []) ≡ escaped)
      × (daytime7_main opens opens_udp (s ∷ t ∷ []) ≡ caught)
unfolding hello_main worker_main daytime5_main daytime6_main daytime7_main as_port to_string
not_a_number opens opens_udp s t e o =
    let z = (atoi-no_digits s e).1 in
    let no = stoi-no_digits s e in
    (
      ground (arith, z, o),
      ground (arith, z, o),
      ground (arith, no),
      ground (arith, no),
      ground (arith, no),
    )
