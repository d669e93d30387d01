-- ===== src/Server/Shutdown/After.antt =====
-- The steps that follow server::hanlde_stop of src/http_server.
use learn_asio.Base.{
  ℕ, ◌≤◌, ◌≡◌, refl, ap, ◌∙◌, Bool, false, some, List, [], ◌∷◌, ◌++◌, arith, Bytes,
}
use learn_asio.Base.Assoc.{Assoc}
use learn_asio.HttpParser.{HttpParser}
use learn_asio.Response.Date.{Tm}
use learn_asio.Server.{
  ErrorCode, success, operation_aborted, failure, Operation, accepting, waiting_signal, reading,
  writing, World, manager_stop, handle_read, handle_write, hanlde_accept, hanlde_stop, take_bytes,
}
use learn_asio.Server.Pending.{ops_on, accepts, ops_on_middle, accepts_middle}
use learn_asio.Server.Steps.{Io, Step, Runs}
use learn_asio.Server.Serving.{take_bytes-Rearms}
use learn_asio.Server.Shutdown.{hanlde_stop_lem}

module _ {P : Type 0} where
  -- In `w'`, reached from `w`: no accept will be started and the manager holds nothing, and no
  -- connection, and no accept, has more operations under way than in `w`.
  pub record IsAfter (w w' : World P) : Type 0 where
    pub shut_acceptor : w'.acceptor_open ≡ false
    pub no_connections : w'.connections ≡ []
    pub ops : (q : ℕ) → ops_on q w'.pending ≤ ops_on q w.pending
    pub fewer_accepts : accepts w'.pending ≤ accepts w.pending

  -- An operation is taken out, and only the heap changes.
  ended-IsAfter :
      (op : Operation) (xs ys : List Operation) (u v : World P)
      → v.pending ≡ xs ++ op ∷ ys
      → IsAfter u v
      → IsAfter u (record v { pending = xs ++ ys })
  ended-IsAfter op xs ys u v split a = record {
    shut_acceptor = a.shut_acceptor;
    no_connections = a.no_connections;
    ops = λ q. omega (arith, a.ops q, ap (ops_on q) split, ops_on_middle q xs ys op);
    fewer_accepts = omega (arith, a.fewer_accepts, ap accepts split, accepts_middle xs ys op);
  }

  dropped-IsAfter : (p : ℕ) (u v : World P) → IsAfter u v → IsAfter u (manager_stop p v)
  unfolding manager_stop
  dropped-IsAfter p u v a = record {
    shut_acceptor = a.shut_acceptor;
    no_connections = rw (a.no_connections) refl;
    ops = a.ops;
    fewer_accepts = a.fewer_accepts;
  }

  stopped-IsAfter : (u v : World P) → IsAfter u v → IsAfter u (hanlde_stop v)
  stopped-IsAfter u v a =
      let s = hanlde_stop_lem v in
      record {
        shut_acceptor = (s 0).0;
        no_connections = (s 0).1;
        ops = λ q. omega (arith, a.ops q, ap (ops_on q) (s 0).2);
        fewer_accepts = omega (arith, a.fewer_accepts, ap accepts (s 0).2);
      }

  wrote-IsAfter :
      (xs ys : List Operation) (ec : ErrorCode) (throws : Bool) (p : ℕ) (buffers : List Bytes)
      (u v : World P)
      → v.pending ≡ xs ++ writing p buffers ∷ ys
      → IsAfter u v
      → IsAfter u (handle_write ec throws p (record v { pending = xs ++ ys }))
  unfolding handle_write
  wrote-IsAfter xs ys (failure c) throws p buffers u v split a =
      dropped-IsAfter p u (record v { pending = xs ++ ys })
        (ended-IsAfter (writing p buffers) xs ys u v split a)
  wrote-IsAfter xs ys operation_aborted throws p buffers u v split a =
      let e = ended-IsAfter (writing p buffers) xs ys u v split a in
      record {
        shut_acceptor = e.shut_acceptor;
        no_connections = e.no_connections;
        ops = e.ops;
        fewer_accepts = e.fewer_accepts;
      }
  wrote-IsAfter xs ys success throws p buffers u v split a =
      let e = ended-IsAfter (writing p buffers) xs ys u v split a in
      record {
        shut_acceptor = e.shut_acceptor;
        no_connections = e.no_connections;
        ops = e.ops;
        fewer_accepts = e.fewer_accepts;
      }

module _ (H : HttpParser) (order : Assoc → Assoc) where
  open H use {Parser}

  taken-IsAfter :
      (xs ys : List Operation) (now : Tm) (p : ℕ) (bytes : Bytes) (u v : World Parser)
      → v.pending ≡ xs ++ reading p ∷ ys
      → IsAfter u v
      → IsAfter u (take_bytes H order now p bytes (record v { pending = xs ++ ys }))
  taken-IsAfter xs ys now p bytes u v split a =
      let r = take_bytes-Rearms H order now p bytes (record v { pending = xs ++ ys }) in
      record {
        shut_acceptor = r.acceptor_open ∙ a.shut_acceptor;
        no_connections = r.connections ∙ a.no_connections;
        ops = λ q.
            omega (arith, a.ops q, r.ops q, ap (ops_on q) split, ops_on_middle q xs ys (reading p));
        fewer_accepts = omega (
          arith,
          a.fewer_accepts,
          r.accepts_kept,
          ap accepts split,
          accepts_middle xs ys (reading p),
        );
      }

  read-IsAfter :
      (xs ys : List Operation) (ec : ErrorCode) (now : Tm) (p : ℕ) (bytes : Bytes)
      (u v : World Parser)
      → v.pending ≡ xs ++ reading p ∷ ys
      → IsAfter u v
      → IsAfter u (handle_read H order ec now p bytes (record v { pending = xs ++ ys }))
  unfolding handle_read
  read-IsAfter xs ys (failure c) now p bytes u v split a =
      dropped-IsAfter p u (record v { pending = xs ++ ys })
        (ended-IsAfter (reading p) xs ys u v split a)
  read-IsAfter xs ys operation_aborted now p bytes u v split a =
      taken-IsAfter xs ys now p bytes u v split a
  read-IsAfter xs ys success now p bytes u v split a = taken-IsAfter xs ys now p bytes u v split a

  -- On a closed acceptor the handler of an accept changes nothing.
  pub hanlde_accept_shut :
      (ec : ErrorCode) (remote_throws : Bool) (w w' : World Parser)
      → w.acceptor_open ≡ false
      → hanlde_accept H order ec remote_throws w ≡ some w'
      → w' ≡ w
  unfolding hanlde_accept
  hanlde_accept_shut ec remote_throws w w' shut e = ground arith

  Step-IsAfter :
      (u : World Parser) {v w : World Parser} → Step H order v w → IsAfter u v → IsAfter u w
  Step-IsAfter u {v} {w} (Step.io (Io.accepted xs ys ec throws split e)) a =
      rw (hanlde_accept_shut ec throws (record v { pending = xs ++ ys }) w a.shut_acceptor e)
        (ended-IsAfter accepting xs ys u v split a)
  Step-IsAfter u {v} (Step.io (Io.read xs ys ec now p bytes split fits e)) a =
      rw e (read-IsAfter xs ys ec now p bytes u v split a)
  Step-IsAfter u {v} (Step.io (Io.wrote xs ys ec throws p buffers split e)) a =
      rw e (wrote-IsAfter xs ys ec throws p buffers u v split a)
  Step-IsAfter u {v} (Step.signalled xs ys split e) a = rw e (
      stopped-IsAfter u (record v { pending = xs ++ ys })
        (ended-IsAfter waiting_signal xs ys u v split a))

  hanlde_stop-IsAfter : (w : World Parser) → IsAfter w (hanlde_stop w)
  hanlde_stop-IsAfter w =
      let s = hanlde_stop_lem w in
      record {
        shut_acceptor = (s 0).0;
        no_connections = (s 0).1;
        ops = λ q. omega (arith, ap (ops_on q) (s 0).2);
        fewer_accepts = omega (arith, ap accepts (s 0).2);
      }

  -- Once a signal was handled, in any state whatever and whatever happens after it, the acceptor
  -- stays closed, the manager's set stays empty, and no connection, and no accept, ever has more
  -- operations under way than it had when the signal was handled.
  pub Runs-IsAfter : {w w' : World Parser} → Runs H order (hanlde_stop w) w' → IsAfter w w'
  Runs-IsAfter {w} Runs.here = hanlde_stop-IsAfter w
  Runs-IsAfter {w} (Runs.next r s) = Step-IsAfter w s (Runs-IsAfter r)
