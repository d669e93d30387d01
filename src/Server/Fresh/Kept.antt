-- ===== src/Server/Fresh/Kept.antt =====
-- Every accept, read and write of src/http_server keeps each response that was not sent yet.
use learn_asio.Base.{
  ℕ, ◌≡◌, refl, sym, ap, ◌∙◌, Bool, false, some, inl, inr, List, ◌∷◌, ◌++◌, arith, Bytes, ◌==◌,
  ==_iff, ==_refl, Bool-cases,
}
use learn_asio.Base.Assoc.{Assoc}
use learn_asio.HttpParser.{HttpParser}
use learn_asio.Message.{MessageStatus, complete, want_more, faild, parse}
use learn_asio.Response.{default_response}
use learn_asio.Response.Date.{Tm}
use learn_asio.Server.{
  Connection, closed, shutdown, connected, ErrorCode, success, operation_aborted, failure,
  Operation, accepting, reading, writing, World, manager_start, manager_stop, handle_read,
  handle_write, hanlde_accept, take_bytes, answer, start_accept, new_server, blank_server,
  new_connection, store,
}
use learn_asio.Server.Pending.{ops_on, ops_on_middle}
use learn_asio.Server.Steps.{Io, Serves}
use learn_asio.Server.Invariant.{IsServing}
use learn_asio.Server.Serving.{Serves-IsServing, hanlde_accept_cases, connect, take_bytes-Rearms}
use learn_asio.Server.Fresh.{
  reads_on, reads_on_middle, reads_on-le, IsFresh, SpareIsFresh, begin-IsFresh, start-IsFresh,
  take_bytes-IsFresh,
}

module _ (H : HttpParser) (order : Assoc → Assoc) where
  open H use {Parser}

  -- Every connection is fresh, and so is the one that the next accept fills.
  pub record AllFresh (w : World Parser) : Type 0 where
    pub each : (p : ℕ) → IsFresh H order w p
    pub spare : SpareIsFresh H order w

  -- An operation is taken out.
  removed-IsFresh :
      (q : ℕ) (op : Operation) (xs ys : List Operation) (w : World Parser)
      → w.pending ≡ xs ++ op ∷ ys
      → IsFresh H order w q
      → IsFresh H order (record w { pending = xs ++ ys }) q
  removed-IsFresh q op xs ys w split (inl left) =
      inl (omega (arith, left, ap (reads_on q) split, reads_on_middle q xs ys op))
  removed-IsFresh q op xs ys w split (inr made) = inr made

  -- A write to the heap that keeps the response.
  response_store :
      (p q : ℕ) (c : Connection Parser) (w : World Parser)
      → c.response ≡ (w.heap p).response
      → ((store p c w).heap q).response ≡ (w.heap q).response
  response_store p q c w same = elim (Bool-cases (q == p)) [
    | inl here ↦ rw here (same ∙ ap (λ r. (w.heap r).response) (sym ((==_iff q p).0 here)))
    | inr other ↦ rw other
  ]

  kept-IsFresh :
      (p q : ℕ) (c : Connection Parser) (w : World Parser)
      → c.response ≡ (w.heap p).response
      → IsFresh H order w q
      → IsFresh H order (store p c w) q
  kept-IsFresh p q c w same (inl left) = inl left
  kept-IsFresh p q c w same (inr made) = inr (response_store p q c w same ∙ made)

  kept-SpareIsFresh :
      (p : ℕ) (c : Connection Parser) (w : World Parser)
      → c.response ≡ (w.heap p).response
      → SpareIsFresh H order w
      → SpareIsFresh H order (store p c w)
  kept-SpareIsFresh p c w same (n, held, made) = (n, held, response_store p n c w same ∙ made)

  -- The heap after make_shared.
  abbrev allocated : World Parser → World Parser
  allocated w = store w.next (new_connection H order) w

  start_accept-AllFresh :
      (w : World Parser) → ((p : ℕ) → IsFresh H order w p) → AllFresh (start_accept H order w)
  unfolding start_accept
  start_accept-AllFresh w f = record {
    each = λ p. elim (Bool-cases (p == w.next)) [
      | inl new ↦ inr (rw new)
      | inr old ↦ begin-IsFresh H order p accepting (allocated w) refl (rw old (f p))
    ];
    spare = (w.next, refl, rw (==_refl w.next));
  }

  ended-AllFresh :
      (p : ℕ) (op : Operation) (xs ys : List Operation) (c : Connection Parser) (w : World Parser)
      → w.pending ≡ xs ++ op ∷ ys
      → c.response ≡ (w.heap p).response
      → AllFresh w
      → AllFresh (store p c (record w { pending = xs ++ ys }))
  ended-AllFresh p op xs ys c w split same f = record {
    each = λ q.
        kept-IsFresh p q c (record w { pending = xs ++ ys }) same
          (removed-IsFresh q op xs ys w split (f.each q));
    spare = kept-SpareIsFresh p c (record w { pending = xs ++ ys }) same f.spare;
  }

  dropped-AllFresh :
      (p : ℕ) (op : Operation) (xs ys : List Operation) (w : World Parser)
      → w.pending ≡ xs ++ op ∷ ys
      → AllFresh w
      → AllFresh (manager_stop p (record w { pending = xs ++ ys }))
  unfolding manager_stop
  dropped-AllFresh p op xs ys w split f =
      let g = ended-AllFresh p op xs ys (record (w.heap p) { socket = closed }) w split refl f in
      record { each = g.each; spare = g.spare }

  wrote-AllFresh :
      (xs ys : List Operation) (ec : ErrorCode) (throws : Bool) (p : ℕ) (buffers : List Bytes)
      (w : World Parser)
      → w.pending ≡ xs ++ writing p buffers ∷ ys
      → AllFresh w
      → AllFresh (handle_write ec throws p (record w { pending = xs ++ ys }))
  unfolding handle_write
  wrote-AllFresh xs ys (failure e) throws p buffers w split f =
      dropped-AllFresh p (writing p buffers) xs ys w split f
  wrote-AllFresh xs ys operation_aborted throws p buffers w split f =
      ended-AllFresh p (writing p buffers) xs ys (shutdown throws (w.heap p)) w split (ground arith)
        f
  wrote-AllFresh xs ys success throws p buffers w split f =
      ended-AllFresh p (writing p buffers) xs ys (shutdown throws (w.heap p)) w split (ground arith)
        f

  accepted-AllFresh :
      (xs ys : List Operation) (ec : ErrorCode) (remote_throws : Bool) (w w' : World Parser)
      → w.pending ≡ xs ++ accepting ∷ ys
      → hanlde_accept H order ec remote_throws (record w { pending = xs ++ ys }) ≡ some w'
      → IsServing w
      → AllFresh w
      → AllFresh w'
  unfolding manager_start
  accepted-AllFresh xs ys ec throws w w' split e v f =
      let n = f.spare.0 in
      let w0 = record w { pending = xs ++ ys } in
      let removed : (q : ℕ) → IsFresh H order w0 q =
        λ q. removed-IsFresh q accepting xs ys w split (f.each q) in
      elim (hanlde_accept_cases H order ec throws n w0 w' v.is_open f.spare.1 e) [
        | inl failed ↦ rw failed (start_accept-AllFresh w0 removed)
        | inr admitted ↦ rw admitted (
            start_accept-AllFresh (manager_start n (connect H order n w0)) λ q.
              start-IsFresh H order n q (connect H order n w0)
                (response_store n n (record (w.heap n) { socket = connected }) w refl ∙ f.spare.2)
                (kept-IsFresh n q (record (w.heap n) { socket = connected }) w0 refl (removed q)))
      ]

  -- Taking bytes on `p` writes to no other connection.
  answer_other :
      (s : MessageStatus) (now : Tm) (p q : ℕ) (w : World Parser)
      → (q == p) ≡ false
      → (answer H order s now p w).heap q ≡ w.heap q
  unfolding answer
  answer_other want_more now p q w other = refl
  answer_other faild now p q w other = refl
  answer_other complete now p q w other = rw other

  take_bytes_other :
      (now : Tm) (p q : ℕ) (bytes : Bytes) (w : World Parser)
      → (q == p) ≡ false
      → (take_bytes H order now p bytes w).heap q ≡ w.heap q
  unfolding take_bytes
  take_bytes_other now p q bytes w other =
      let c = record (w.heap p) { request = parse H (w.heap p).request bytes } in
      answer_other c.request.message_status now p q (store p c w) other ∙ rw other

  -- While `p` is read, its response is the one it was made with.
  pub reading_made :
      (p : ℕ) (xs ys : List Operation) (w : World Parser)
      → w.pending ≡ xs ++ reading p ∷ ys
      → IsFresh H order w p
      → (w.heap p).response ≡ default_response H
  reading_made p xs ys w split (inl left) =
      absurd (ground (arith, ap (reads_on p) split, reads_on_middle p xs ys (reading p)))
  reading_made p xs ys w split (inr made) = made

  -- The connection that is read is not the one that the next accept fills.
  pub spare_other :
      (p n : ℕ) (xs ys : List Operation) (w : World Parser)
      → w.pending ≡ xs ++ reading p ∷ ys
      → IsServing w
      → w.new_connection ≡ some n
      → (n == p) ≡ false
  spare_other p n xs ys w split v held =
      let same : v.spare.0 ≡ n = cc (v.spare.1.held) in
      ground (
        arith,
        same,
        v.spare.1.outside,
        v.kept p,
        ap (ops_on p) split,
        ops_on_middle p xs ys (reading p),
        ==_iff n p,
      )

  taken-AllFresh :
      (xs ys : List Operation) (now : Tm) (p : ℕ) (bytes : Bytes) (w : World Parser)
      → w.pending ≡ xs ++ reading p ∷ ys
      → IsServing w
      → AllFresh w
      → AllFresh (take_bytes H order now p bytes (record w { pending = xs ++ ys }))
  taken-AllFresh xs ys now p bytes w split v f =
      let w0 = record w { pending = xs ++ ys } in
      let (n, held, made) = f.spare in
      let left : reads_on p (xs ++ ys) ≡ 0 = ground (
        arith,
        v.kept p,
        ap (ops_on p) split,
        ops_on_middle p xs ys (reading p),
        reads_on-le p (xs ++ ys),
      ) in
      record {
        each = λ q.
            take_bytes-IsFresh H order now p q bytes w0 left
              (reading_made p xs ys w split (f.each p))
              (removed-IsFresh q (reading p) xs ys w split (f.each q));
        spare = (
          n,
          (take_bytes-Rearms H order now p bytes w0).new_connection ∙ held,
          ap (λ c. c.response)
                (take_bytes_other now p n bytes w0 (spare_other p n xs ys w split v held))
              ∙ made,
        );
      }

  read-AllFresh :
      (xs ys : List Operation) (ec : ErrorCode) (now : Tm) (p : ℕ) (bytes : Bytes)
      (w : World Parser)
      → w.pending ≡ xs ++ reading p ∷ ys
      → IsServing w
      → AllFresh w
      → AllFresh (handle_read H order ec now p bytes (record w { pending = xs ++ ys }))
  unfolding handle_read
  read-AllFresh xs ys (failure e) now p bytes w split v f =
      dropped-AllFresh p (reading p) xs ys w split f
  read-AllFresh xs ys operation_aborted now p bytes w split v f =
      taken-AllFresh xs ys now p bytes w split v f
  read-AllFresh xs ys success now p bytes w split v f = taken-AllFresh xs ys now p bytes w split v f

  Io-AllFresh : {w w' : World Parser} → Io H order w w' → IsServing w → AllFresh w → AllFresh w'
  Io-AllFresh {w} {w'} (Io.accepted xs ys ec throws split e) v f =
      accepted-AllFresh xs ys ec throws w w' split e v f
  Io-AllFresh {w} (Io.read xs ys ec now p bytes split fits e) v f =
      rw e (read-AllFresh xs ys ec now p bytes w split v f)
  Io-AllFresh {w} (Io.wrote xs ys ec throws p buffers split e) v f =
      rw e (wrote-AllFresh xs ys ec throws p buffers w split f)

  new_server-AllFresh : AllFresh (new_server H order)
  unfolding new_server
  new_server-AllFresh = start_accept-AllFresh (blank_server H order) (λ p. inl refl)

  pub Serves-AllFresh : {w : World Parser} → Serves H order (new_server H order) w → AllFresh w
  Serves-AllFresh Serves.here = new_server-AllFresh
  Serves-AllFresh (Serves.next r s) = Io-AllFresh s (Serves-IsServing H order r) (Serves-AllFresh r)
