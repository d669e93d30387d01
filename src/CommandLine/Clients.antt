-- ===== src/CommandLine/Clients.antt =====
-- What the main functions of the clients ask the resolver for: src/http_client/main.cpp,
-- src/basics/daytime1.cpp and daytime4.cpp, and tutorial/110.http_client.cpp; and which version of
-- its Printer that of src/basics/timer5.cpp runs.
use learn_asio.Base.{
  ℕ, ◌%◌, ◌^◌, ◌<◌, ◌≡◌, ◌↔◌, Bool, true, false, Option, none, some, List, [], ◌∷◌, Bytes, codes,
  arith, if◌then◌else◌,
}
use learn_asio.Base.Decimal.{to_decimal, of_decimal, of_decimal-to_decimal}
use learn_asio.CommandLine.{as_port, to_string, listens, http_main}

-- How a client begins: it prints its usage and ends; main logs an exception of cxxopts and ends with
-- EXIT_FAILURE; C++ gives it no meaning; an exception ends it, caught by main or not; or it asks for
-- this host and service.
pub data Asking : Type 0 where
  usage failure undefined caught escaped : Asking
  asks : Bytes → Bytes → Asking

-- What cxxopts makes of one option: an exception; the option is not there; it is there without a
-- value; or with this one.
pub data Given : Type 0 where
  exception absent bare : Given
  with_value : Bytes → Given

module _ (resolves : Bytes → Bytes → Bool) where
  abbrev resolve : Asking → Bytes → Bytes → Asking
  resolve otherwise host port = if resolves host port then asks host port else otherwise

  -- main of http_client up to its loop; an error of the resolver is not caught. An option that takes
  -- a value is refused without one.
  unfoldable pub http_client_main : Given → Asking
  http_client_main exception = failure
  http_client_main absent = resolve escaped (codes "localhost") (codes "80")
  http_client_main bare = failure
  http_client_main (with_value port) = resolve escaped (codes "localhost") port

  -- main of daytime1 up to the connection
  unfoldable pub daytime1_main : Given → Asking
  daytime1_main exception = failure
  daytime1_main absent = resolve escaped [] (codes "80")
  daytime1_main bare = resolve escaped (codes "localhost") (codes "80")
  daytime1_main (with_value host) = resolve escaped host (codes "80")

  -- main of daytime4 up to the datagram that it sends
  unfoldable pub daytime4_main : List Bytes → Asking
  daytime4_main [] = usage
  daytime4_main (host ∷ []) = usage
  daytime4_main (host ∷ port ∷ []) = resolve caught host port
  daytime4_main (host ∷ port ∷ _ ∷ _) = usage

-- main of 110 with what its application asks for: it prints the usage unless there is one argument,
-- and goes on with the first one. Without any, a std::string is made from a null pointer.
unfoldable pub application_main : List Bytes → Bool × Asking
application_main [] = (true, undefined)
application_main (host ∷ []) = (false, asks host (codes "http"))
application_main (host ∷ _ ∷ _) = (true, asks host (codes "http"))

-- main of timer5: whether its Printer is on a strand, and the line that it begins with; none if
-- cxxopts throws, and else whether --sync is given.
unfoldable pub timer5_main : Option Bool → Option (Bool × Bytes)
timer5_main none = none
timer5_main (some true) = some (true, codes "Synchronize version:\n")
timer5_main (some false) = some (false, codes "No Synchronize version:\n")

-- http_server and http_client with the same number for --port: the server listens on that number
-- modulo 2 ^ 16, if the port is free, and says that it runs on the number; the client asks localhost
-- for it; and both name the same port exactly if the number is that of a port.
pub http_main-http_client_main :
    (opens : ℕ → Bool) (resolves : Bytes → Bytes → Bool) (n : ℕ)
    → opens (n % 2 ^ 16) ≡ true
    → resolves (codes "localhost") (to_decimal n) ≡ true
    → (http_main opens (some (some (false, n))) ≡ listens (some (to_decimal n)) (n % 2 ^ 16 ∷ []))
      × (http_client_main resolves (with_value (to_decimal n))
          ≡ asks (codes "localhost") (to_decimal n))
      × ((of_decimal (to_decimal n) ≡ some (n % 2 ^ 16)) ↔ (n < 2 ^ 16))
unfolding http_main http_client_main as_port to_string
http_main-http_client_main opens resolves n o r =
    (ground (arith, o), ground (arith, r), rw (of_decimal-to_decimal n) (ground arith))
