-- ===== src/Server/Received/Kept.antt =====
-- The accepts and writes of src/http_server, and its reads that fail, leave what the connections
-- have parsed.
use learn_asio.Base.{
  ℕ, ◌≡◌, refl, sym, ap, ◌∙◌, Bool, some, inl, inr, List, [], ◌∷◌, ◌++◌, arith, Bytes, ◌==◌, ==_iff,
  Bool-cases,
}
use learn_asio.Base.Assoc.{Assoc}
use learn_asio.HttpParser.{HttpParser}
use learn_asio.Message.{Message, want_more, new_message}
use learn_asio.Message.Pieces.{parse_each}
use learn_asio.Server.{
  Connection, closed, shutdown, ErrorCode, success, operation_aborted, failure, Operation,
  accepting, writing, World, manager_start, manager_stop, handle_write, hanlde_accept, start_accept,
  store,
}
use learn_asio.Server.Invariant.{IsServing}
use learn_asio.Server.Serving.{hanlde_accept_cases, connect}
use learn_asio.Server.Fresh.{reads_on, reads_on_middle}
use learn_asio.Server.Received.{Tracks}

module _ (H : HttpParser) (order : Assoc → Assoc) where
  open H use {Parser}

  -- An operation has ended, and of the connection `q` nothing changes that is tracked.
  ended-Tracks :
      (p q : ℕ) (bs : List Bytes) (op : Operation) (xs ys : List Operation) (c : Connection Parser)
      (w : World Parser)
      → w.pending ≡ xs ++ op ∷ ys
      → c.request ≡ (w.heap q).request
      → Tracks H order p bs w
      → Tracks H order p bs (store q c (record w { pending = xs ++ ys }))
  ended-Tracks p q bs op xs ys c w split same t =
      let kept : ((store q c w).heap p).request ≡ (w.heap p).request =
        ground (arith, ==_iff p q, same) in
      record {
        parsed = kept ∙ t.parsed;
        waited = t.waited;
        wants = ground (arith, t.wants, kept, ap (reads_on p) split, reads_on_middle p xs ys op);
        unmade = t.unmade;
        spare = t.spare;
      }

  pub dropped-Tracks :
      (p q : ℕ) (bs : List Bytes) (op : Operation) (xs ys : List Operation) (w : World Parser)
      → w.pending ≡ xs ++ op ∷ ys
      → Tracks H order p bs w
      → Tracks H order p bs (manager_stop q (record w { pending = xs ++ ys }))
  unfolding manager_stop
  dropped-Tracks p q bs op xs ys w split t =
      let u = ended-Tracks p q bs op xs ys (record (w.heap q) { socket = closed }) w split refl t in
      record {
        parsed = u.parsed;
        waited = u.waited;
        wants = u.wants;
        unmade = u.unmade;
        spare = u.spare;
      }

  pub wrote-Tracks :
      (p : ℕ) (bs : List Bytes) (xs ys : List Operation) (ec : ErrorCode) (throws : Bool) (q : ℕ)
      (buffers : List Bytes) (w : World Parser)
      → w.pending ≡ xs ++ writing q buffers ∷ ys
      → Tracks H order p bs w
      → Tracks H order p bs (handle_write ec throws q (record w { pending = xs ++ ys }))
  unfolding handle_write
  wrote-Tracks p bs xs ys (failure e) throws q buffers w split t =
      dropped-Tracks p q bs (writing q buffers) xs ys w split t
  wrote-Tracks p bs xs ys operation_aborted throws q buffers w split t =
      ended-Tracks p q bs (writing q buffers) xs ys (shutdown throws (w.heap q)) w split
        (ground arith) t
  wrote-Tracks p bs xs ys success throws q buffers w split t =
      ended-Tracks p q bs (writing q buffers) xs ys (shutdown throws (w.heap q)) w split
        (ground arith) t

  -- What is tracked of a connection that has read nothing.
  nothing_read :
      (p : ℕ) (bs : List Bytes) (w : World Parser)
      → bs ≡ []
      → (w.heap p).request ≡ parse_each H (new_message H) bs
      → (w.heap p).request ≡ new_message H
  nothing_read p bs w none_read parsed = parsed ∙ ap (parse_each H (new_message H)) none_read

  new_wants : (m : Message Parser) → m ≡ new_message H → m.message_status ≡ want_more
  unfolding new_message
  new_wants m e = ap (λ x. x.message_status) e

  pub start_accept-Tracks :
      (p : ℕ) (bs : List Bytes) (w : World Parser)
      → Tracks H order p bs w
      → Tracks H order p bs (start_accept H order w)
  unfolding start_accept new_message
  start_accept-Tracks p bs w t = record {
    parsed = elim (Bool-cases (p == w.next)) [
      | inl new ↦ rw new (
          ap (parse_each H (new_message H)) (sym (t.unmade (ground (arith, new, ==_iff p w.next)))))
      | inr old ↦ rw old t.parsed
    ];
    waited = t.waited;
    wants = elim (Bool-cases (p == w.next)) [
      | inl new ↦ inr (rw new)
      | inr old ↦ ground (arith, old, t.wants)
    ];
    unmade = λ above. t.unmade (omega (arith, above));
    spare = λ held. t.unmade (ground (arith, held));
  }

  connect-Tracks :
      (p n : ℕ) (bs : List Bytes) (w : World Parser)
      → w.new_connection ≡ some n
      → Tracks H order p bs w
      → Tracks H order p bs (manager_start n (connect H order n w))
  unfolding manager_start
  connect-Tracks p n bs w held t =
      let kept : ((connect H order n w).heap p).request ≡ (w.heap p).request =
        ground (arith, ==_iff p n) in
      record {
        parsed = kept ∙ t.parsed;
        waited = t.waited;
        wants = elim (Bool-cases (n == p)) [
          | inl same ↦ inr (
              ap (λ m. m.message_status) kept
              ∙ new_wants (w.heap p).request
                  (nothing_read p bs w (t.spare (held ∙ ap some ((==_iff n p).0 same))) t.parsed))
          | inr other ↦ ground (arith, other, kept, t.wants)
        ];
        unmade = t.unmade;
        spare = t.spare;
      }

  pub accepted-Tracks :
      (p : ℕ) (bs : List Bytes) (xs ys : List Operation) (ec : ErrorCode) (remote_throws : Bool)
      (w w' : World Parser)
      → w.pending ≡ xs ++ accepting ∷ ys
      → hanlde_accept H order ec remote_throws (record w { pending = xs ++ ys }) ≡ some w'
      → IsServing w
      → Tracks H order p bs w
      → Tracks H order p bs w'
  accepted-Tracks p bs xs ys ec throws w w' split e v t =
      let n = v.spare.0 in
      let held = v.spare.1.held in
      let w0 = record w { pending = xs ++ ys } in
      let removed : Tracks H order p bs w0 = record {
        parsed = t.parsed;
        waited = t.waited;
        wants = ground (arith, t.wants, ap (reads_on p) split, reads_on_middle p xs ys accepting);
        unmade = t.unmade;
        spare = t.spare;
      } in
      elim (hanlde_accept_cases H order ec throws n w0 w' v.is_open held e) [
        | inl failed ↦ rw failed (start_accept-Tracks p bs w0 removed)
        | inr admitted ↦ rw admitted (
            start_accept-Tracks p bs (manager_start n (connect H order n w0))
              (connect-Tracks p n bs w0 held removed))
      ]
