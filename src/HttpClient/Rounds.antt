-- ===== src/HttpClient/Rounds.antt =====
-- The whole loop of src/http_client/main.cpp against the server of src/http_server.
use mathlib.Core.List.{Perm}
use learn_asio.Base.{
  ◌≡◌, refl, ap, ◌∙◌, true, false, some, List, [], ◌∷◌, map, Bytes, concat, all, All,
}
use learn_asio.Base.Assoc.{Assoc}
use learn_asio.Response.{Response, stamp, to_buffers}
use learn_asio.Response.Date.{Tm}
use learn_asio.Response.Reader.{clean_header}
use learn_asio.ReadUntil.{ReadUntil}
use learn_asio.HttpClient.{Outcome, exchange, run_client}
use learn_asio.HttpClient.Lines.{plain_header}
use learn_asio.HttpClient.Reading.{logged, exchange_order}

-- A response that was sent at a time, and the pieces in which it came in.
pub record Round (P : Type 0) : Type 0 where
  pub now : Tm
  pub response : Response P
  pub pieces : List Bytes

pub run_client_step :
    (R : ReadUntil) (c : List Bytes) (cs : List (List Bytes)) (o : Outcome)
    → exchange R c ≡ some o
    → run_client R (c ∷ cs) ≡ (o ∷ (run_client R cs).0, (run_client R cs).1)
unfolding run_client
run_client_step R c cs o e = rw (e, run_client)

module _ (R : ReadUntil) {P : Type 0} (order : Assoc → Assoc) where
  -- The pieces are the buffers of the response, whose own headers hold no carriage return and no line
  -- feed, and no colon in their names.
  abbrev pub IsServed : Round P → Type 0
  IsServed t =
      (all clean_header t.response.message.headers ≡ true)
      × (all plain_header t.response.message.headers ≡ true)
      × (concat t.pieces ≡ concat (to_buffers order t.now t.response).1)

  abbrev pub log_of : Round P → Outcome
  log_of t = logged t.response.status (order (stamp t.now t.response).message.headers)

  -- If every connection brings the buffers of a response of the server, cut into any pieces, no
  -- exception ends the client's loop: for each response in turn it logs its header lines, in the
  -- order in which the server has sent them, if it goes out as a 200, and else the number that it
  -- goes out under. The order is a permutation, and the headers that the program has put into the
  -- responses hold no carriage return and no line feed, and their names no colon.
  pub run_client-to_buffers :
      (ts : List (Round P))
      → ((m : Assoc) → Perm (order m) m)
      → All IsServed ts
      → run_client R (map (λ t. t.pieces) ts) ≡ (map log_of ts, false)
  unfolding run_client
  run_client-to_buffers [] perm served = refl
  run_client-to_buffers (t ∷ ts) perm served =
      let (clean, plain, came) = served.0 in
      run_client_step R t.pieces (map (λ x. x.pieces) ts) (log_of t)
        (exchange_order R order t.now t.response t.pieces perm clean plain came)
      ∙ ap (λ l. (log_of t ∷ l.0, l.1)) (run_client-to_buffers ts perm served.1)
