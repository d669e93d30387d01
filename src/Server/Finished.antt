-- ===== src/Server/Finished.antt =====
-- What becomes of a connection of src/http_server when its answer has been written.
use learn_asio.Base.{
  ℕ, ◌≡◌, refl, ap, Bool, true, false, inl, inr, List, ◌∷◌, ◌++◌, arith, Bytes, ◌==◌, ==_iff,
  if◌then◌else◌,
}
use learn_asio.Base.Assoc.{Assoc}
use learn_asio.HttpParser.{HttpParser}
use learn_asio.Response.Date.{Tm}
use learn_asio.Server.{
  ErrorCode, success, operation_aborted, failure, Operation, accepting, reading, writing, World,
  mem, manager_start, manager_stop, handle_read, handle_write, take_bytes, start_accept, new_server,
}
use learn_asio.Server.Pending.{touches, ops_on, ops_on_middle, mem-set_insert, mem-set_erase}
use learn_asio.Server.Steps.{Io, Serves}
use learn_asio.Server.Invariant.{IsServing, wrote-IsServing}
use learn_asio.Server.Serving.{
  Serves-IsServing, Io-IsServing, hanlde_accept_cases, connect, take_bytes-Rearms,
}

-- The manager holds the connection, and nothing is under way on it.
abbrev pub IsIdle : {P : Type 0} → World P → ℕ → Type 0
IsIdle w p = (mem p w.connections ≡ true) × (ops_on p w.pending ≡ 0)

module _ {P : Type 0} where
  -- The operation that ends is on `q`, so `p`, on which there is none, is another connection.
  idle_other :
      (p q : ℕ) (op : Operation) (xs ys : List Operation) (w : World P)
      → w.pending ≡ xs ++ op ∷ ys
      → ((r : ℕ) → touches r op ≡ (if q == r then 1 else 0))
      → IsIdle w p
      → (q == p) ≡ false
  idle_other p q op xs ys w split on_q i =
      ground (arith, ap (ops_on p) split, ops_on_middle p xs ys op, on_q p, i)

  dropped-IsIdle :
      (p q : ℕ) (op : Operation) (xs ys : List Operation) (w : World P)
      → w.pending ≡ xs ++ op ∷ ys
      → (q == p) ≡ false
      → IsIdle w p
      → IsIdle (manager_stop q (record w { pending = xs ++ ys })) p
  unfolding manager_stop
  dropped-IsIdle p q op xs ys w split other i = (
    rw (mem-set_erase q p w.connections) (ground (arith, other, i)),
    omega (arith, ap (ops_on p) split, ops_on_middle p xs ys op, i),
  )

  -- Another connection's operation is taken out, and the heap changes.
  ended-IsIdle :
      (p : ℕ) (op : Operation) (xs ys : List Operation) (w : World P)
      → w.pending ≡ xs ++ op ∷ ys
      → IsIdle w p
      → IsIdle (record w { pending = xs ++ ys }) p
  ended-IsIdle p op xs ys w split i =
      (i.0, omega (arith, ap (ops_on p) split, ops_on_middle p xs ys op, i.1))

module _ (H : HttpParser) (order : Assoc → Assoc) where
  open H use {Parser}

  started-IsIdle :
      (p n : ℕ) (w : World Parser)
      → (n == p) ≡ false
      → IsIdle w p
      → IsIdle (manager_start n (connect H order n w)) p
  unfolding manager_start
  started-IsIdle p n w other i =
      (rw (mem-set_insert n p w.connections) (ground (arith, i)), ground (arith, other, i))

  accepting-IsIdle : (p : ℕ) (w : World Parser) → IsIdle w p → IsIdle (start_accept H order w) p
  unfolding start_accept
  accepting-IsIdle p w i = (i.0, omega (arith, i.1))

  taken-IsIdle :
      (now : Tm) (p q : ℕ) (bytes : Bytes) (w : World Parser)
      → (q == p) ≡ false
      → IsIdle w p
      → IsIdle (take_bytes H order now q bytes w) p
  taken-IsIdle now p q bytes w other i =
      let r = take_bytes-Rearms H order now q bytes w in
      (rw (r.connections) i.0, ground (arith, r.ops p, other, i.1))

  read-IsIdle :
      (p q : ℕ) (xs ys : List Operation) (ec : ErrorCode) (now : Tm) (bytes : Bytes)
      (w : World Parser)
      → w.pending ≡ xs ++ reading q ∷ ys
      → IsIdle w p
      → IsIdle (handle_read H order ec now q bytes (record w { pending = xs ++ ys })) p
  unfolding handle_read
  read-IsIdle p q xs ys ec now bytes w split i = by_code ec
    where
      other : (q == p) ≡ false
      other = idle_other p q (reading q) xs ys w split (λ r. refl) i

      taken : IsIdle (take_bytes H order now q bytes (record w { pending = xs ++ ys })) p
      taken =
          taken-IsIdle now p q bytes (record w { pending = xs ++ ys }) other
            (ended-IsIdle p (reading q) xs ys w split i)

      by_code :
          (c : ErrorCode)
          → IsIdle (handle_read H order c now q bytes (record w { pending = xs ++ ys })) p
      by_code (failure c) = dropped-IsIdle p q (reading q) xs ys w split other i
      by_code operation_aborted = taken
      by_code success = taken

  wrote-IsIdle :
      (p q : ℕ) (xs ys : List Operation) (ec : ErrorCode) (throws : Bool) (buffers : List Bytes)
      (w : World Parser)
      → w.pending ≡ xs ++ writing q buffers ∷ ys
      → IsIdle w p
      → IsIdle (handle_write ec throws q (record w { pending = xs ++ ys })) p
  unfolding handle_write
  wrote-IsIdle p q xs ys (failure c) throws buffers w split i =
      dropped-IsIdle p q (writing q buffers) xs ys w split
        (idle_other p q (writing q buffers) xs ys w split (λ r. refl) i) i
  wrote-IsIdle p q xs ys operation_aborted throws buffers w split i =
      ended-IsIdle p (writing q buffers) xs ys w split i
  wrote-IsIdle p q xs ys success throws buffers w split i =
      ended-IsIdle p (writing q buffers) xs ys w split i

  Io-IsIdle :
      (p : ℕ) {w w' : World Parser} → Io H order w w' → IsServing w → IsIdle w p → IsIdle w' p
  unfolding handle_read handle_write
  Io-IsIdle p {w} {w'} (Io.accepted xs ys ec throws split e) v i =
      let n = v.spare.0 in
      let w0 = record w { pending = xs ++ ys } in
      let idle : IsIdle w0 p =
        (i.0, omega (arith, ap (ops_on p) split, ops_on_middle p xs ys accepting, i)) in
      elim (hanlde_accept_cases H order ec throws n w0 w' v.is_open v.spare.1.held e) [
        | inl failed ↦ rw failed (accepting-IsIdle p w0 idle)
        | inr admitted ↦ rw admitted (
            accepting-IsIdle p (manager_start n (connect H order n w0))
              (started-IsIdle p n w0 (ground (arith, v.spare.1.outside, i.0, ==_iff n p)) idle))
      ]
  Io-IsIdle p {w} (Io.read xs ys ec now q bytes split fits e) v i =
      rw e (read-IsIdle p q xs ys ec now bytes w split i)
  Io-IsIdle p {w} (Io.wrote xs ys ec throws q buffers split e) v i =
      rw e (wrote-IsIdle p q xs ys ec throws buffers w split i)

  Serves-IsIdle :
      (p : ℕ) {w w' : World Parser}
      → Serves H order w w'
      → IsServing w
      → IsIdle w p
      → IsServing w' × IsIdle w' p
  Serves-IsIdle p Serves.here v i = (v, i)
  Serves-IsIdle p (Serves.next r s) v i =
      let (v', i') = Serves-IsIdle p r v i in (Io-IsServing H order s v', Io-IsIdle p s v' i')

  -- A connection whose answer was written without a failure stays in the manager's set for as long
  -- as no signal is handled, whatever is accepted, read and written after that, and no operation
  -- is ever started on it again: it and its socket are never released.
  pub finished_stays :
      {w w' : World Parser} (xs ys : List Operation) (throws : Bool) (p : ℕ) (buffers : List Bytes)
      → Serves H order (new_server H order) w
      → w.pending ≡ xs ++ writing p buffers ∷ ys
      → Serves H order (handle_write success throws p (record w { pending = xs ++ ys })) w'
      → (mem p w'.connections ≡ true) × (ops_on p w'.pending ≡ 0)
  unfolding handle_write
  finished_stays {w} xs ys throws p buffers r split after =
      let v = Serves-IsServing H order r in
      let ops = v.kept p in
      let w1 = handle_write success throws p (record w { pending = xs ++ ys }) in
      (Serves-IsIdle p after (wrote-IsServing xs ys success throws p buffers w split v)
        (ground (arith, ops, ap (ops_on p) split, ops_on_middle p xs ys (writing p buffers)))).1
