-- ===== src/Server/Serving.antt =====
-- Every accept, read and write keeps the invariant of src/http_server's running server.
use learn_asio.Base.{
  ℕ, ◌<◌, ◌≡◌, refl, ap, Bool, true, false, some, ◌⊎◌, inl, inr, List, ◌∷◌, ◌++◌, arith, Bytes,
  ==_iff,
}
use learn_asio.Base.Assoc.{Assoc}
use learn_asio.HttpParser.{HttpParser}
use learn_asio.Message.{MessageStatus, complete, want_more, faild, parse}
use learn_asio.Response.Date.{Tm}
use learn_asio.Server.{
  connected, ErrorCode, success, operation_aborted, failure, Operation, accepting, reading, World,
  mem, manager_start, handle_read, hanlde_accept, take_bytes, answer, start_accept, new_server,
  blank_server, store,
}
use learn_asio.Server.Pending.{ops_on, accepts, ops_on_middle, accepts_middle, mem-set_insert}
use learn_asio.Server.Steps.{Io, Serves}
use learn_asio.Server.Invariant.{
  IsKept, IsServing, Rearms, Follows-IsServing, dropped-IsServing, wrote-IsServing,
}

module _ (H : HttpParser) (order : Assoc → Assoc) where
  open H use {Parser}

  answer-Rearms :
      (s : MessageStatus) (now : Tm) (p : ℕ) (w : World Parser)
      → Rearms p w (answer H order s now p w)
  unfolding answer
  answer-Rearms want_more now p w = ground arith
  answer-Rearms faild now p w = ground arith
  answer-Rearms complete now p w = ground arith

  pub take_bytes-Rearms :
      (now : Tm) (p : ℕ) (bytes : Bytes) (w : World Parser)
      → Rearms p w (take_bytes H order now p bytes w)
  unfolding take_bytes
  take_bytes-Rearms now p bytes w =
      let request = parse H (w.heap p).request bytes in
      let r =
        answer-Rearms request.message_status now p
          (store p (record (w.heap p) { request = request }) w) in
      record {
        connections = r.connections;
        next = r.next;
        new_connection = r.new_connection;
        acceptor_open = r.acceptor_open;
        accepts_kept = r.accepts_kept;
        ops = r.ops;
      }

module _ (H : HttpParser) (order : Assoc → Assoc) where
  open H use {Parser}

  start_accept-IsServing :
      (w : World Parser)
      → w.acceptor_open ≡ true
      → accepts w.pending ≡ 0
      → ((p : ℕ) → IsKept w p)
      → IsServing (start_accept H order w)
  unfolding start_accept
  start_accept-IsServing w o a k = record {
    is_open = o;
    one_accept = omega (arith, a);
    spare = (
      w.next,
      record { held = refl; allocated = omega arith; outside = ground (arith, k w.next) },
    );
    kept = λ p. record { owned = ground (arith, k p); below = ground (arith, k p) };
  }

  manager_start-IsKept :
      (n : ℕ) (w : World Parser)
      → n < w.next
      → mem n w.connections ≡ false
      → ((p : ℕ) → IsKept w p)
      → (p : ℕ) → IsKept (manager_start n w) p
  unfolding manager_start
  manager_start-IsKept n w lt out k p = record {
    owned = ground (arith, mem-set_insert n p w.connections, k p, ==_iff n p);
    below = ground (arith, mem-set_insert n p w.connections, k p, ==_iff n p);
  }

  -- The socket of the connection `n` was filled by the accept.
  abbrev pub connect : ℕ → World Parser → World Parser
  connect n w = store n (record (w.heap n) { socket = connected }) w

  admitted-IsServing :
      (n : ℕ) (w : World Parser)
      → w.acceptor_open ≡ true
      → accepts w.pending ≡ 0
      → n < w.next
      → mem n w.connections ≡ false
      → ((p : ℕ) → IsKept w p)
      → IsServing (start_accept H order (manager_start n (connect n w)))
  unfolding manager_start
  admitted-IsServing n w o a lt out k =
      let connected : (p : ℕ) → IsKept (connect n w) p =
        λ p. record { owned = (k p).owned; below = (k p).below } in
      start_accept-IsServing (manager_start n (connect n w)) o (omega arith)
        (manager_start-IsKept n (connect n w) lt out connected)

  -- What the handler of an accept leaves, when it leaves something.
  pub hanlde_accept_cases :
      (ec : ErrorCode) (remote_throws : Bool) (n : ℕ) (w w' : World Parser)
      → w.acceptor_open ≡ true
      → w.new_connection ≡ some n
      → hanlde_accept H order ec remote_throws w ≡ some w'
      → (w' ≡ start_accept H order w) ⊎ (w' ≡ start_accept H order (manager_start n (connect n w)))
  unfolding hanlde_accept
  hanlde_accept_cases success true n w w' o held e = ground arith
  hanlde_accept_cases success false n w w' o held e = inr (ground arith)
  hanlde_accept_cases operation_aborted throws n w w' o held e = inl (ground arith)
  hanlde_accept_cases (failure c) throws n w w' o held e = inl (ground arith)

  accepted-IsServing :
      (xs ys : List Operation) (ec : ErrorCode) (remote_throws : Bool) (w w' : World Parser)
      → w.pending ≡ xs ++ accepting ∷ ys
      → hanlde_accept H order ec remote_throws (record w { pending = xs ++ ys }) ≡ some w'
      → IsServing w
      → IsServing w'
  accepted-IsServing xs ys ec throws w w' split e v =
      let n = v.spare.0 in
      let w0 = record w { pending = xs ++ ys } in
      let idle : accepts (xs ++ ys) ≡ 0 =
        omega (arith, ap accepts split, accepts_middle xs ys accepting, v.one_accept) in
      let kept : (p : ℕ) → IsKept w0 p = λ p. record {
        owned = omega (arith, ap (ops_on p) split, ops_on_middle p xs ys accepting, v.kept p);
        below = (v.kept p).below;
      } in
      elim (hanlde_accept_cases ec throws n w0 w' v.is_open v.spare.1.held e) [
        | inl failed ↦ rw failed (start_accept-IsServing w0 v.is_open idle kept)
        | inr admitted ↦
            rw admitted
              (admitted-IsServing n w0 v.is_open idle v.spare.1.allocated v.spare.1.outside kept)
      ]

  rearmed-IsServing :
      (xs ys : List Operation) (now : Tm) (p : ℕ) (bytes : Bytes) (w : World Parser)
      → w.pending ≡ xs ++ reading p ∷ ys
      → IsServing w
      → IsServing (take_bytes H order now p bytes (record w { pending = xs ++ ys }))
  rearmed-IsServing xs ys now p bytes w split v =
      let r = take_bytes-Rearms H order now p bytes (record w { pending = xs ++ ys }) in
      Follows-IsServing
        (record {
          connections = r.connections;
          next = r.next;
          new_connection = r.new_connection;
          acceptor_open = r.acceptor_open;
          accepts_kept =
              omega (arith, r.accepts_kept, ap accepts split, accepts_middle xs ys (reading p));
          ops = λ q. omega (arith, r.ops q, ap (ops_on q) split, ops_on_middle q xs ys (reading p));
        })
        v

  read-IsServing :
      (xs ys : List Operation) (ec : ErrorCode) (now : Tm) (p : ℕ) (bytes : Bytes)
      (w : World Parser)
      → w.pending ≡ xs ++ reading p ∷ ys
      → IsServing w
      → IsServing (handle_read H order ec now p bytes (record w { pending = xs ++ ys }))
  unfolding handle_read
  read-IsServing xs ys (failure e) now p bytes w split v =
      dropped-IsServing p (reading p) xs ys w (λ q. refl) refl split v
  read-IsServing xs ys operation_aborted now p bytes w split v =
      rearmed-IsServing xs ys now p bytes w split v
  read-IsServing xs ys success now p bytes w split v = rearmed-IsServing xs ys now p bytes w split v

  new_server-IsServing : IsServing (new_server H order)
  unfolding new_server
  new_server-IsServing =
      start_accept-IsServing (blank_server H order) refl refl
        (λ p. record { owned = omega arith; below = omega arith })

  pub Io-IsServing : {w w' : World Parser} → Io H order w w' → IsServing w → IsServing w'
  Io-IsServing {w} {w'} (Io.accepted xs ys ec throws split e) v =
      accepted-IsServing xs ys ec throws w w' split e v
  Io-IsServing {w} (Io.read xs ys ec now p bytes split fits e) v =
      rw e (read-IsServing xs ys ec now p bytes w split v)
  Io-IsServing {w} (Io.wrote xs ys ec throws p buffers split e) v =
      rw e (wrote-IsServing xs ys ec throws p buffers w split v)

  -- However reads, writes and accepts end, and in whatever order their handlers run: the server
  -- stays open with exactly one accept under way, which fills an allocated connection that is not
  -- in the manager's set; and each connection has at most one operation under way, and that only
  -- while the manager holds it. So until a signal is handled no handler runs on a connection that
  -- nobody owns, though the write handlers hold no shared pointer.
  pub Serves-IsServing : {w : World Parser} → Serves H order (new_server H order) w → IsServing w
  Serves-IsServing Serves.here = new_server-IsServing
  Serves-IsServing (Serves.next r s) = Io-IsServing s (Serves-IsServing r)
