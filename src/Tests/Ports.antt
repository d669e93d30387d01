-- ===== src/Tests/Ports.antt =====
-- The main functions of CommandLine on some arguments.
use learn_asio.Base.{
  ℕ, ◌<◌, ◌≡◌, ◌↔◌, refl, Bool, true, false, none, some, [], ◌∷◌, Bytes, codes, arith, leb, ◌==◌,
  ◌||◌,
}
use learn_asio.Base.Decimal.{to_decimal, of_decimal}
use learn_asio.CommandLine.{
  stoi, atoi, as_port, to_string, caught, escaped, listens, hello_main, worker_main, daytime5_main,
  daytime6_main, daytime7_main, http_main,
}
use learn_asio.CommandLine.Clients.{
  Given, Asking, asks, absent, http_client_main, daytime1_main, application_main,
  http_main-http_client_main,
}
use learn_asio.CommandLine.Ports.{stoi-to_string}
use learn_asio.CommandLine.Mains.{listens_on, not_a_number}

-- Ports below 1024 are refused, but for 0.
abbrev unprivileged : ℕ → Bool
unprivileged n = n == 0 || leb 1024 n

stoi_spaces : stoi (codes " +42 km") ≡ some (false, 42)
unfolding stoi
stoi_spaces = refl

stoi_large : stoi (codes "2147483648") ≡ none
unfolding stoi
stoi_large = refl

http_main_default : http_main unprivileged (some none) ≡ listens (some (codes "5000")) (5000 ∷ [])
unfolding http_main as_port to_string to_decimal
http_main_default = refl

hello_main_default : hello_main unprivileged [] ≡ listens (some (codes "5678")) (5678 ∷ [])
unfolding hello_main as_port to_string to_decimal
hello_main_default = refl

-- The port -1 is 65535.
hello_main_negative :
    hello_main unprivileged (codes "-1" ∷ []) ≡ listens (some (codes "-1")) (65535 ∷ [])
unfolding hello_main atoi as_port to_string to_decimal
hello_main_negative = refl

daytime6_main_privileged : daytime6_main unprivileged (codes "13" ∷ []) ≡ escaped
unfolding daytime6_main stoi as_port
daytime6_main_privileged = refl

minus_five :
    (stoi (to_string (true, 5)) ≡ some (true, 5)) × (atoi (to_string (true, 5)) ≡ some (true, 5))
minus_five = stoi-to_string (true, 5) (ground arith)

listens_on_example :
    (hello_main unprivileged (to_decimal 70000 ∷ [])
      ≡ listens (some (to_decimal 70000)) (4464 ∷ []))
    × (worker_main unprivileged (to_decimal 70000 ∷ []) ≡ listens none (4464 ∷ []))
    × (daytime5_main unprivileged (to_decimal 1313 ∷ []) ≡ listens none (1313 ∷ []))
    × (daytime6_main unprivileged (to_decimal 1313 ∷ []) ≡ listens none (1313 ∷ []))
    × (daytime7_main unprivileged unprivileged (to_decimal 70000 ∷ to_decimal 1313 ∷ [])
        ≡ listens none (4464 ∷ 1313 ∷ []))
listens_on_example =
    listens_on unprivileged unprivileged 70000 1313 (omega arith) (omega arith) refl refl

no_port :
    (hello_main unprivileged (codes "port" ∷ []) ≡ listens (some (to_decimal 0)) (0 ∷ []))
    × (worker_main unprivileged (codes "port" ∷ []) ≡ listens none (0 ∷ []))
    × (daytime5_main unprivileged (codes "port" ∷ []) ≡ caught)
    × (daytime6_main unprivileged (codes "port" ∷ []) ≡ escaped)
    × (daytime7_main unprivileged unprivileged (codes "port" ∷ codes "13" ∷ []) ≡ caught)
no_port = not_a_number unprivileged unprivileged (codes "port") (codes "13") refl refl

-- Every name has an address here.
abbrev known : Bytes → Bytes → Bool
known host port = true

-- Without options the client asks for another port than the one on which the server listens.
http_client_main_default : http_client_main known absent ≡ asks (codes "localhost") (codes "80")
unfolding http_client_main
http_client_main_default = refl

daytime1_main_default : daytime1_main known absent ≡ asks [] (codes "80")
unfolding daytime1_main
daytime1_main_default = refl

application_main_no_host : application_main [] ≡ (true, Asking.undefined)
unfolding application_main
application_main_no_host = refl

same_port :
    (http_main unprivileged (some (some (false, 5000)))
      ≡ listens (some (to_decimal 5000)) (5000 ∷ []))
    × (http_client_main known (Given.with_value (to_decimal 5000))
        ≡ asks (codes "localhost") (to_decimal 5000))
    × ((of_decimal (to_decimal 5000) ≡ some 5000) ↔ (5000 < 65536))
same_port = http_main-http_client_main unprivileged known 5000 refl refl
