-- ===== src/Server/Received/Reads.antt =====
-- What a read of src/http_server's connection parses.
use learn_asio.Base.{
  ℕ, suc, ◌≤◌, ◌≡◌, refl, sym, ap, ◌∙◌, false, ◌⊎◌, inl, inr, List, [], ◌∷◌, ◌++◌, append-nil,
  arith, Bytes, ◌==◌, ==_iff, ==_refl, if◌then◌else◌, Bool-cases,
}
use learn_asio.Base.Assoc.{Assoc}
use learn_asio.HttpParser.{HttpParser}
use learn_asio.Message.{
  Message, MessageStatus, complete, want_more, faild, parse, new_message, Method, get, post, put,
  del, invalid,
}
use learn_asio.Message.Pieces.{Waits, parse_each}
use learn_asio.Response.Date.{Tm}
use learn_asio.Server.{
  Connection, Operation, reading, World, take_bytes, answer, store, dispatch, respond,
}
use learn_asio.Server.Pending.{ops_on, ops_on_middle}
use learn_asio.Server.Invariant.{IsServing}
use learn_asio.Server.Serving.{take_bytes-Rearms}
use learn_asio.Server.Fresh.{reads_on, reads_on_middle, reads_on-le}
use learn_asio.Server.Fresh.Kept.{spare_other}
use learn_asio.Server.Received.{Tracks}

module _ (H : HttpParser) (order : Assoc → Assoc) where
  open H use {Parser}

  pub parse_each-snoc :
      (m : Message Parser) (bs : List Bytes) (b : Bytes)
      → parse_each H m (bs ++ b ∷ []) ≡ parse H (parse_each H m bs) b
  parse_each-snoc m [] b = refl
  parse_each-snoc m (c ∷ bs) b = parse_each-snoc (parse H m c) bs b

  pub Waits-snoc :
      (m : Message Parser) (bs : List Bytes) (b : Bytes)
      → Waits H m bs
      → (parse_each H m bs).message_status ≡ want_more
      → Waits H m (bs ++ b ∷ [])
  Waits-snoc m [] b ws w = (w, tt)
  Waits-snoc m (c ∷ bs) b ws w = (ws.0, Waits-snoc (parse H m c) bs b ws.1 w)

  dispatch-request : (m : Method) (c : Connection Parser) → (dispatch m c).request ≡ c.request
  unfolding dispatch
  dispatch-request get c = refl
  dispatch-request post c = refl
  dispatch-request put c = refl
  dispatch-request del c = refl
  dispatch-request invalid c = refl

  -- What handle_read leaves of the connection that it reads, with the status `s`.
  answer-wants :
      (s : MessageStatus) (now : Tm) (p : ℕ) (w : World Parser)
      → reads_on p w.pending ≡ 0
      → (w.heap p).request.message_status ≡ s
      → let w' = answer H order s now p w in
        ((w'.heap p).request ≡ (w.heap p).request)
        × ((reads_on p w'.pending ≡ 0) ⊎ ((w'.heap p).request.message_status ≡ want_more))
  unfolding answer respond
  answer-wants want_more now p w left e = (refl, inr e)
  answer-wants faild now p w left e = (refl, inl (omega (arith, left)))
  answer-wants complete now p w left e = (
    rw (==_refl p) (dispatch-request (w.heap p).request.method (w.heap p)),
    inl (omega (arith, left)),
  )

  answer_other :
      (s : MessageStatus) (now : Tm) (p q : ℕ) (w : World Parser)
      → (p == q) ≡ false
      → (q == p) ≡ false
      → let w' = answer H order s now q w in
        (w'.heap p ≡ w.heap p) × (reads_on p w'.pending ≡ reads_on p w.pending)
  unfolding answer
  answer_other want_more now p q w pq qp = (refl, ground (arith, qp))
  answer_other faild now p q w pq qp = (refl, omega arith)
  answer_other complete now p q w pq qp = (rw pq refl, omega arith)

  -- A read of the connection `p`.
  taken-Tracks :
      (p : ℕ) (bs : List Bytes) (xs ys : List Operation) (now : Tm) (bytes : Bytes)
      (w : World Parser)
      → w.pending ≡ xs ++ reading p ∷ ys
      → IsServing w
      → Tracks H order p bs w
      → Tracks H order p
          (bs ++ bytes ∷ [])
          (take_bytes H order now p bytes (record w { pending = xs ++ ys }))
  unfolding take_bytes
  taken-Tracks p bs xs ys now bytes w split v t =
      let w0 = record w { pending = xs ++ ys } in
      let request = parse H (w.heap p).request bytes in
      let c = record (w.heap p) { request = request } in
      let busy : suc (reads_on p (xs ++ ys)) ≤ 1 = ground (
        arith,
        v.kept p,
        ap (ops_on p) split,
        ops_on_middle p xs ys (reading p),
        reads_on-le p (xs ++ ys),
      ) in
      let left : reads_on p (xs ++ ys) ≡ 0 = omega (arith, busy) in
      let some_read : 1 ≤ reads_on p w.pending =
        ground (arith, ap (reads_on p) split, reads_on_middle p xs ys (reading p)) in
      let wanted : (w.heap p).request.message_status ≡ want_more =
        ground (arith, t.wants, some_read) in
      let answered =
        answer-wants request.message_status now p (store p c w0) left (rw (==_refl p) refl) in
      let same = take_bytes-Rearms H order now p bytes w0 in
      record {
        parsed =
            answered.0
            ∙ rw (==_refl p) (
                ap (λ m. parse H m bytes) t.parsed
                ∙ sym (parse_each-snoc (new_message H) bs bytes));
        waited =
            Waits-snoc (new_message H) bs bytes t.waited
              (ap (λ m. m.message_status) (sym t.parsed) ∙ wanted);
        wants = answered.1;
        unmade = λ above. absurd (
            ground (
              arith,
              above,
              same.next,
              v.kept p,
              ap (ops_on p) split,
              ops_on_middle p xs ys (reading p),
            ));
        spare = λ held. absurd (
            ground (
              arith,
              ==_refl p,
              spare_other H order p p xs ys w split v (sym same.new_connection ∙ held),
            ));
      }

  -- A read of another connection.
  other-Tracks :
      (p q : ℕ) (bs : List Bytes) (xs ys : List Operation) (now : Tm) (bytes : Bytes)
      (w : World Parser)
      → w.pending ≡ xs ++ reading q ∷ ys
      → (p == q) ≡ false
      → Tracks H order p bs w
      → Tracks H order p bs (take_bytes H order now q bytes (record w { pending = xs ++ ys }))
  unfolding take_bytes
  other-Tracks p q bs xs ys now bytes w split pq t =
      let w0 = record w { pending = xs ++ ys } in
      let qp : (q == p) ≡ false = ground (arith, pq, ==_iff p q, ==_iff q p) in
      let request = parse H (w.heap q).request bytes in
      let c = record (w.heap q) { request = request } in
      let (at, reads) = answer_other request.message_status now p q (store q c w0) pq qp in
      let same = take_bytes-Rearms H order now q bytes w0 in
      let kept : (take_bytes H order now q bytes w0).heap p ≡ w.heap p = at ∙ ground (arith, pq) in
      record {
        parsed = ap (λ x. x.request) kept ∙ t.parsed;
        waited = t.waited;
        wants = ground (
          arith,
          t.wants,
          reads,
          kept,
          ap (reads_on p) split,
          reads_on_middle p xs ys (reading q),
          qp,
        );
        unmade = λ above. t.unmade (omega (arith, above, same.next));
        spare = λ held. t.spare (sym same.new_connection ∙ held);
      }

  pub taken_by-Tracks :
      (p q : ℕ) (bs : List Bytes) (xs ys : List Operation) (now : Tm) (bytes : Bytes)
      (w : World Parser)
      → w.pending ≡ xs ++ reading q ∷ ys
      → IsServing w
      → Tracks H order p bs w
      → Tracks H order p
          (bs ++ (if p == q then bytes ∷ [] else []))
          (take_bytes H order now q bytes (record w { pending = xs ++ ys }))
  taken_by-Tracks p q bs xs ys now bytes w split v t = elim (Bool-cases (p == q)) [
    | inl same ↦
        rw (same, sym ((==_iff p q).0 same))
          (taken-Tracks p bs xs ys now bytes w (rw ((==_iff p q).0 same) split) v t)
    | inr other ↦ rw (other, append-nil bs) (other-Tracks p q bs xs ys now bytes w split other t)
  ]
