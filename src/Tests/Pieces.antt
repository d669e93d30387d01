-- ===== src/Tests/Pieces.antt =====
-- The theorem on messages that come in pieces, for a parser that takes pieces: a message is its URL
-- up to the end of the line, with no "?" in it, and nothing may follow it. As http_parser does, it
-- reports nothing of the text in which it finds an error.
use mathlib.Core.List.{Perm}
use learn_asio.Base.Assoc.{Assoc}
use learn_asio.HttpClient.{exchange, listed}
use learn_asio.HttpClient.Lines.{logged_line}
use learn_asio.HttpClient.Whole.{exchange-concat}
use learn_asio.Response.{stamp}
use learn_asio.Server.Replies.{served}
use learn_asio.Tests.Clients.{reader}
use learn_asio.Tests.Servers.{perm_same}
use learn_asio.Base.{
  map, concat, some, ℕ, ◌≡◌, ◌⊎◌, inl, inr, sym, ◌∙◌, refl, ap, true, false, List, [], ◌∷◌, ◌++◌,
  arith, subst, append-nil, Bytes, codes, is_empty, ◌==◌, if◌then◌else◌,
}
use learn_asio.HttpParser.{HttpParser, Callback, http_get, on_url, on_message_complete}
use learn_asio.Message.{parse, new_message, Message, callback, want_more, faild, complete}
use learn_asio.Message.Outcome.{completes}
use learn_asio.Message.Fragments.{joined, stays_orderly}
use learn_asio.Message.Pieces.{Streams, SameParse}
use learn_asio.Server.{
  World, success, accepting, reading, writing, waiting_signal, respond, start_accept, manager_start,
  new_server, handle_read, hanlde_accept,
}
use learn_asio.Server.Steps.{Io, Serves}
use learn_asio.Server.Serving.{connect}
use learn_asio.Server.Fresh.{reads_on}
use learn_asio.Server.Received.{received}
use learn_asio.Server.Received.Whole.{Serves-message_of}
use learn_asio.Tests.Responses.{some_day, same_order}

data Phase : Type 0 where
  within over refused : Phase

abbrev run : Phase → Bytes → Phase × List Callback
run within [] = (within, [])
run within (c ∷ rest) =
    let more = run within rest in
    if c == 10
    then (if is_empty rest then over else refused, on_message_complete ∷ [])
    else if c == 63
    then (refused, [])
    else (more.0, on_url (c ∷ []) ∷ more.1)
run over rest = (refused, [])
run refused rest = (refused, [])

abbrev errno : Phase → ℕ
errno refused = 1
errno _ = 0

abbrev reported : Phase × List Callback → List Callback
reported (phase, cs) = if errno phase == 0 then cs else []

abbrev careful : Phase → Bytes → Phase × List Callback
careful p b = let r = run p b in (r.0, reported r)

abbrev liner : HttpParser
liner = record {
  Parser = Phase;
  init = within;
  execute = careful;
  http_errno = errno;
  major = λ p. 1;
  minor = λ p. 0;
  verb = λ p. http_get;
  status_code = λ p. 0;
  should_keep_alive = λ p. false;
  upgraded = λ p. false;
}

-- Before the end of the line the parser goes on where it was.
run_on :
    (a b : Bytes)
    → completes (run within a).1 ≡ false
    → run within (a ++ b)
      ≡ ((run (run within a).0 b).0, (run within a).1 ++ (run (run within a).0 b).1)
run_on [] b h = refl
run_on (c ∷ a) b h = ground (arith, h, run_on a b)

-- A list of callbacks that is in order behind any message with no pending value.
abbrev InOrder : List Callback → Type 0
InOrder cs = (m : Message Phase) → m.current_header_value ≡ [] → stays_orderly cs m ≡ true

in_order : (p : Phase) (a : Bytes) (cs : List Callback) → InOrder cs → InOrder ((run p a).1 ++ cs)
unfolding callback
in_order within [] cs h m e = h m e
in_order within (c ∷ a) cs h m e = ground (
  arith,
  e,
  h m e,
  h (callback on_message_complete m) e,
  in_order within a cs h (callback (on_url (c ∷ [])) m) e,
)
in_order over a cs h m e = h m e
in_order refused a cs h m e = h m e

reported_or : (r : Phase × List Callback) → (reported r ≡ r.1) ⊎ (reported r ≡ [])
reported_or (within, cs) = inl refl
reported_or (over, cs) = inl refl
reported_or (refused, cs) = inr refl

reported_fine : (r : Phase × List Callback) → (errno r.0 == 0) ≡ true → reported r ≡ r.1
reported_fine (within, cs) e = refl
reported_fine (over, cs) e = refl
reported_fine (refused, cs) e = absurd (ground (arith, e))

InOrder-reported :
    (p : Phase) (a : Bytes) (cs : List Callback) → InOrder cs → InOrder (reported (run p a) ++ cs)
InOrder-reported p a cs h = elim (reported_or (run p a)) [
  | inl all ↦ subst (λ l. InOrder (l ++ cs)) (sym all) (in_order p a cs h)
  | inr none_of ↦ subst (λ l. InOrder (l ++ cs)) (sym none_of) h
]

-- The callbacks of a first piece that is fine are all reported.
more_run :
    (a : Bytes)
    → (errno (run within a).0 == 0) ≡ true
    → completes (reported (run within a)) ≡ false
    → completes (run within a).1 ≡ false
more_run a fine more = ap completes (sym (reported_fine (run within a) fine)) ∙ more

cut_liner :
    (a b : Bytes)
    → (errno (run within a).0 == 0) ≡ true
    → completes (run within a).1 ≡ false
    → (errno (run (run within a).0 b).0 == 0) ≡ true
    → reported (run within (a ++ b)) ≡ reported (run within a) ++ reported (run (run within a).0 b)
cut_liner a b fine more good =
    let e = run_on a b more in
    reported_fine (run within (a ++ b)) (ap (λ r. errno r.0 == 0) e ∙ good)
    ∙ ap (λ r. r.1) e
    ∙ ap (λ l. l ++ (run (run within a).0 b).1) (sym (reported_fine (run within a) fine))
    ∙ ap (λ l. reported (run within a) ++ l) (sym (reported_fine (run (run within a).0 b) good))

streams : Streams liner
unfolding new_message
streams = record {
  refuses = λ a b fa fb fine more. ap (λ r. errno r.0 == 0) (run_on a b (more_run a fine more));
  cut = λ a b fa fb fine more good.
      let m = more_run a fine more in
      (ap (λ r. r.0) (run_on a b m), ap joined (cut_liner a b fine m good));
  named = λ a b p.
      InOrder-reported within a (reported (run (run within a).0 b))
        (subst InOrder (append-nil (reported (run (run within a).0 b)))
          (InOrder-reported (run within a).0 b [] (λ m e. refl)))
        (record (new_message liner) { parser = p }) refl;
}

abbrev pieces : List Bytes
pieces = codes "/in" ∷ codes "dex\n" ∷ []

-- A client connects, and its request arrives in two reads.
abbrev lined : World Phase
lined = start_accept liner same_order (
    manager_start 0 (
      connect liner same_order 0
        (record (new_server liner same_order) { pending = waiting_signal ∷ [] })))

abbrev half_read : World Phase
half_read =
    handle_read liner same_order success some_day 0 (codes "GET /in")
      (record lined { pending = accepting ∷ waiting_signal ∷ [] })

abbrev all_read : World Phase
all_read =
    handle_read liner same_order success some_day 0 (codes "dex\n")
      (record half_read { pending = accepting ∷ waiting_signal ∷ [] })

half_read_reached : Serves liner same_order (new_server liner same_order) half_read
unfolding new_server hanlde_accept start_accept manager_start
half_read_reached =
    Serves.next
      (Serves.next Serves.here (Io.accepted [] (waiting_signal ∷ []) success false refl refl))
      (Io.read (accepting ∷ []) (waiting_signal ∷ []) success some_day 0 (codes "GET /in") refl
        (omega arith) refl)

half_read_pending : half_read.pending ≡ reading 0 ∷ accepting ∷ waiting_signal ∷ []
unfolding new_server start_accept manager_start handle_read new_message parse
half_read_pending = refl

all_read_reached : Serves liner same_order (new_server liner same_order) all_read
all_read_reached = Serves.next half_read_reached (
    Io.read [] (accepting ∷ waiting_signal ∷ []) success some_day 0 (codes "dex\n")
      half_read_pending (omega arith) refl)

-- A refused request leaves its URL behind only if an earlier piece has brought it.
cut_differs :
    let m = parse liner (parse liner (new_message liner) (codes "/x")) (codes "?") in
    let n = parse liner (new_message liner) (codes "/x?") in
    (m.url ≡ codes "/x") × (n.url ≡ []) × (m.message_status ≡ faild) × (n.message_status ≡ faild)
unfolding parse new_message
cut_differs = (refl, refl, refl, refl)

Serves-message_of_example :
    SameParse (all_read.heap 0).request (parse liner (new_message liner) (codes "GET /index\n"))
    × ((reads_on 0 all_read.pending ≡ 0) ⊎ ((all_read.heap 0).request.message_status ≡ want_more))
unfolding all_read_reached half_read_reached received
Serves-message_of_example = Serves-message_of liner same_order 0 all_read_reached streams refl

abbrev page : Message Phase
page = parse liner (new_message liner) (codes "GET /index\n")

page_complete : page.message_status ≡ complete
unfolding parse new_message
page_complete = refl

abbrev page_buffers : List Bytes
page_buffers = (respond liner same_order some_day (record (lined.heap 0) { request = page })).1

page_written : all_read.pending ≡ writing 0 page_buffers ∷ accepting ∷ waiting_signal ∷ []
unfolding new_server start_accept manager_start handle_read new_message parse
page_written = refl

exchange-concat_example :
    let answer = served liner same_order page.method in
    (hs : Assoc) × (exchange reader (concat page_buffers ∷ []) ≡ some (listed (map logged_line hs)))
    × Perm hs (stamp some_day answer).message.headers
unfolding half_read_reached received
exchange-concat_example =
    exchange-concat reader liner same_order 0 half_read_reached [] (accepting ∷ waiting_signal ∷ [])
      some_day (codes "dex\n") page_buffers (concat page_buffers ∷ []) perm_same streams refl
      half_read_pending page_complete page_written (append-nil (concat page_buffers))
