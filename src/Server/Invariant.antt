-- ===== src/Server/Invariant.antt =====
-- The invariant of the running server of src/http_server, until a signal is handled.
use learn_asio.Base.{
  ℕ, suc, ◌+◌, ◌≤◌, ◌<◌, ◌≡◌, refl, ap, ◌∙◌, Bool, true, false, some, List, ◌∷◌, ◌++◌, arith, Bytes,
  ◌==◌, ==_iff, if◌then◌else◌,
}
use learn_asio.Server.{
  Connection, shutdown, ErrorCode, success, operation_aborted, failure, Operation, writing, World,
  mem, manager_stop, handle_write, store,
}
use learn_asio.Server.Pending.{
  touches, is_accepting, ops_on, accepts, ops_on_middle, accepts_middle, mem-set_erase,
}

module _ {P : Type 0} where
  -- One connection under the server: it has at most one operation under way, and that only while
  -- the manager holds it; what the manager holds was allocated.
  pub record IsKept (w : World P) (p : ℕ) : Type 0 where
    pub owned : ops_on p w.pending ≤ (if mem p w.connections then 1 else 0)
    pub below : (if mem p w.connections then suc p else 0) ≤ w.next

  -- The connection that the next accept fills: allocated, and not yet in the manager's set.
  pub record IsSpare (w : World P) (n : ℕ) : Type 0 where
    pub held : w.new_connection ≡ some n
    pub allocated : n < w.next
    pub outside : mem n w.connections ≡ false

  pub record IsServing (w : World P) : Type 0 where
    pub is_open : w.acceptor_open ≡ true
    pub one_accept : accepts w.pending ≡ 1
    pub spare : (n : ℕ) × IsSpare w n
    pub kept : (p : ℕ) → IsKept w p

  -- The connection `p` goes on to one more operation, and nothing else but the heap changes.
  pub record Rearms (p : ℕ) (w w' : World P) : Type 0 where
    pub connections : w'.connections ≡ w.connections
    pub next : w'.next ≡ w.next
    pub new_connection : w'.new_connection ≡ w.new_connection
    pub acceptor_open : w'.acceptor_open ≡ w.acceptor_open
    pub accepts_kept : accepts w'.pending ≡ accepts w.pending
    pub ops : (q : ℕ) → ops_on q w'.pending ≡ (if p == q then 1 else 0) + ops_on q w.pending

module _ {P : Type 0} where
  -- Nothing changes but the heap, and no connection has more operations under way than before.
  pub record Follows (w w' : World P) : Type 0 where
    pub connections : w'.connections ≡ w.connections
    pub next : w'.next ≡ w.next
    pub new_connection : w'.new_connection ≡ w.new_connection
    pub acceptor_open : w'.acceptor_open ≡ w.acceptor_open
    pub accepts_kept : accepts w'.pending ≡ accepts w.pending
    pub ops : (q : ℕ) → ops_on q w'.pending ≤ ops_on q w.pending

  pub Follows-IsServing : {w w' : World P} → Follows w w' → IsServing w → IsServing w'
  Follows-IsServing {w} {w'} f v = record {
    is_open = f.acceptor_open ∙ v.is_open;
    one_accept = f.accepts_kept ∙ v.one_accept;
    spare = (
      v.spare.0,
      record {
        held = f.new_connection ∙ v.spare.1.held;
        allocated = rw f.next v.spare.1.allocated;
        outside = rw f.connections v.spare.1.outside;
      },
    );
    kept = λ p. record {
      owned = ground (arith, f.connections, f.ops p, v.kept p);
      below = ground (arith, f.connections, f.next, v.kept p);
    };
  }

  -- An operation on `p` is taken out, and the manager lets go of `p`.
  pub dropped-IsServing :
      (p : ℕ) (op : Operation) (xs ys : List Operation) (w : World P)
      → ((q : ℕ) → touches q op ≡ (if p == q then 1 else 0))
      → is_accepting op ≡ 0
      → w.pending ≡ xs ++ op ∷ ys
      → IsServing w
      → IsServing (manager_stop p (record w { pending = xs ++ ys }))
  unfolding manager_stop
  dropped-IsServing p op xs ys w on_p no_accept split v = record {
    is_open = v.is_open;
    one_accept = omega (arith, ap accepts split, accepts_middle xs ys op);
    spare = (
      v.spare.0,
      record {
        held = v.spare.1.held;
        allocated = v.spare.1.allocated;
        outside = rw (mem-set_erase p v.spare.0 w.connections) (ground (arith, v.spare.1.outside));
      },
    );
    kept = λ q. record {
      owned = ground (
        arith,
        mem-set_erase p q w.connections,
        ap (ops_on q) split,
        ops_on_middle q xs ys op,
        on_p q,
        v.kept q,
        ==_iff p q,
      );
      below = ground (arith, mem-set_erase p q w.connections, v.kept q);
    };
  }

  -- An operation is taken out, and only the heap changes besides.
  pub ended-Follows :
      (p : ℕ) (op : Operation) (xs ys : List Operation) (c : Connection P) (w : World P)
      → is_accepting op ≡ 0
      → w.pending ≡ xs ++ op ∷ ys
      → Follows w (store p c (record w { pending = xs ++ ys }))
  ended-Follows p op xs ys c w no_accept split = record {
    connections = refl;
    next = refl;
    new_connection = refl;
    acceptor_open = refl;
    accepts_kept = omega (arith, no_accept, ap accepts split, accepts_middle xs ys op);
    ops = λ q. omega (arith, ap (ops_on q) split, ops_on_middle q xs ys op);
  }

  pub wrote-IsServing :
      (xs ys : List Operation) (ec : ErrorCode) (throws : Bool) (p : ℕ) (buffers : List Bytes)
      (w : World P)
      → w.pending ≡ xs ++ writing p buffers ∷ ys
      → IsServing w
      → IsServing (handle_write ec throws p (record w { pending = xs ++ ys }))
  unfolding handle_write
  wrote-IsServing xs ys (failure e) throws p buffers w split v =
      dropped-IsServing p (writing p buffers) xs ys w (λ q. refl) refl split v
  wrote-IsServing xs ys operation_aborted throws p buffers w split v =
      Follows-IsServing
        (ended-Follows p (writing p buffers) xs ys (shutdown throws (w.heap p)) w refl split) v
  wrote-IsServing xs ys success throws p buffers w split v =
      Follows-IsServing
        (ended-Follows p (writing p buffers) xs ys (shutdown throws (w.heap p)) w refl split) v
