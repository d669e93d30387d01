-- ===== src/Tests/Daytimes.antt =====
-- The theorems on the daytime programs at concrete runs.
use mathlib.Core.List.{Perm}
use learn_asio.Base.{
  all, ◌≡◌, ◌+◌, refl, true, false, none, some, [], ◌∷◌, ◌++◌, map, codes, length,
}
use learn_asio.Base.Decimal.{to_decimal}
use learn_asio.Response.Date.{two_digits}
use learn_asio.Daytime.{
  Datagram, Client, make_daytime_string, print_each, bytes, eof, answer_each, greet_each,
}
use learn_asio.Daytime.Udp
use learn_asio.Daytime.Udp.Answers.{reply, from_error, Serves-answer_each}
use learn_asio.Daytime.Both
use learn_asio.Daytime.Both.Invariant.{
  greeting, addressed, from_exception, Serves-greet_each, receives_once,
}
use learn_asio.Daytime.Tcp
use learn_asio.Daytime.Tcp.Greetings
use learn_asio.Tests.Responses.{some_day}

ctime_example : make_daytime_string some_day ≡ codes "Sun Nov  6 08:49:37 1994\n"
unfolding make_daytime_string two_digits to_decimal
ctime_example = refl

printed_example :
    print_each (bytes (codes "Sun Nov  6 ") ∷ bytes (codes "08:49:37 1994\n") ∷ eof ∷ [])
    ≡ (codes "Sun Nov  6 08:49:37 1994\n", false)
unfolding print_each
printed_example = refl

abbrev good : Datagram
good = record { sender = 7; error = none; now = some_day }

abbrev bad : Datagram
bad = record { sender = 8; error = some (codes "Message too long"); now = some_day }

-- A datagram, a failed receive, and the first answer is out.
abbrev udp_state : Udp.UdpServer
udp_state = record {
  remote_endpoint = 8;
  receives = 1;
  sends = (8, codes "Message too long") ∷ [];
  stopped = false;
}

udp_run : Udp.Serves (good ∷ bad ∷ []) (reply good ∷ []) udp_state
unfolding Udp.new_server Udp.receive Udp.start_receive Udp.send
udp_run =
    Udp.Serves.sent [] (reply bad ∷ []) (reply good)
      (Udp.Serves.received bad 0 (Udp.Serves.received good 0 Udp.Serves.here refl refl) refl refl)
      refl refl

Serves-answer_each_example :
    (udp_state.receives ≡ 1)
    × Perm
        ((reply good ∷ []) ++ udp_state.sends)
        ((answer_each (good ∷ bad ∷ [])).0 ++ map reply (from_error (good ∷ bad ∷ [])))
Serves-answer_each_example = Serves-answer_each udp_run

-- A client, and a datagram; what they get is out.
abbrev visitor : Client
visitor = record { socket = 3; failed = false; throws = false; now = some_day }

abbrev both_state : Both.Servers
both_state = record {
  accepts = 1;
  writes = [];
  receives = 0;
  remote_endpoint = 7;
  message = make_daytime_string some_day;
  sends = [];
}

both_run :
    Both.Serves (visitor ∷ []) (greeting visitor ∷ []) (good ∷ []) (reply good ∷ []) both_state
unfolding Both.new_servers Both.accept Both.start Both.start_accept Both.start_receive Both.receive
    Both.write Both.sent
both_run =
    Both.Serves.answered [] [] 7
      (Both.Serves.received good 0
        (Both.Serves.written [] [] (greeting visitor) false
          (Both.Serves.accepted visitor 0 Both.Serves.here refl refl) refl refl)
        refl)
      refl

Serves-greet_each_example :
    (both_state.accepts ≡ 1)
    × Perm
        ((greeting visitor ∷ []) ++ both_state.writes)
        ((greet_each (visitor ∷ [])).0 ++ map greeting (from_exception (visitor ∷ [])))
Serves-greet_each_example = Serves-greet_each both_run

receives_once_example :
    (both_state.receives + length (good ∷ []) ≡ 1)
    × Perm ((reply good ∷ []) ++ addressed both_state) (answer_each (good ∷ [])).0
receives_once_example = receives_once both_run

abbrev caller : Tcp.Client
caller = record {
  connection = 5;
  failed = false;
  throws = false;
  throws_at_end = false;
  address = codes "127.0.0.1";
  port = 4711;
  now = some_day;
}

abbrev tcp_state : Tcp.Server
tcp_state = record { accepts = 1; writes = [] }

tcp_run : Tcp.Serves (caller ∷ []) (Greetings.greeting caller ∷ []) tcp_state
unfolding Tcp.new_server Tcp.accept Tcp.start Tcp.start_accept Tcp.write
tcp_run =
    Tcp.Serves.written [] [] (Greetings.greeting caller) false false
      (Tcp.Serves.accepted caller 0 Tcp.Serves.here refl refl) refl refl

Serves-message_example :
    (tcp_state.accepts ≡ 1)
    × Perm
        ((Greetings.greeting caller ∷ []) ++ tcp_state.writes)
        (map Greetings.greeting (caller ∷ []))
    × (all Greetings.came (caller ∷ []) ≡ true)
Serves-message_example = Greetings.Serves-message tcp_run
