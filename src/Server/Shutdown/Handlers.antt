-- ===== src/Server/Shutdown/Handlers.antt =====
-- The handlers of the server of src/http_server on sockets that are closed.
use learn_asio.Base.{
  ℕ, ◌≡◌, refl, ap, ◌∙◌, ◌⊎◌, inl, inr, Bool, true, false, Option, some, List, [], ◌∷◌, Bytes,
  arith, ==_iff, subst, sym, none, ◌||◌, ◌==◌, leb, if◌then◌else◌, Bool-cases,
}
use mathlib.Core.Option.{some-injective, none-ne-some}
use learn_asio.Base.Assoc.{Assoc}
use learn_asio.HttpParser.{HttpParser}
use learn_asio.Message.{
  MessageStatus, Method, get, post, put, del, invalid, complete, want_more, faild, parse,
}
use learn_asio.Response.Date.{Tm}
use learn_asio.Server.{
  Connection, closed, ErrorCode, success, operation_aborted, failure, Operation, accepting,
  waiting_signal, reading, writing, World, mem, manager_stop, stop, handle_read, handle_write,
  hanlde_accept, hanlde_stop, take_bytes, answer, refusal, store, respond, dispatch, shutdown,
}
use learn_asio.Server.Fresh.{reads_on}
use learn_asio.Server.Shutdown.{hanlde_stop_lem}
use learn_asio.Server.Shutdown.After.{hanlde_accept_shut}

-- What an operation ends with: its error code, whether the call in its handler that may throw does,
-- the time, and the bytes of a read.
pub record Result : Type 0 where
  pub ec : ErrorCode
  pub throws : Bool
  pub now : Tm
  pub bytes : Bytes

-- A result with which every handler returns.
abbrev pub refused : Result
refused = record {
  ec = failure 0;
  throws = false;
  now = record { sec = 0; min = 0; hour = 0; mday = 1; mon = 0; year = 70; wday = 4 };
  bytes = [];
}

abbrev pub is_some : Option ℕ → ℕ → Bool
is_some none p = false
is_some (some q) p = q == p

-- Whether a shared pointer to the connection is held: by the manager, by the server's member, or by
-- the handler of a read.
abbrev pub is_owned : {P : Type 0} → ℕ → World P → Bool
is_owned p w = mem p w.connections || (is_some w.new_connection p || leb 1 (reads_on p w.pending))

module _ (H : HttpParser) (order : Assoc → Assoc) where
  open H use {Parser}

  -- The handler that was bound to an operation, which is not among those under way any more. Those
  -- of writes are bound to the connection itself, not to a shared pointer: if nobody owns it, it was
  -- destroyed, and what its handler does is not defined.
  unfoldable pub run_handler : Operation → Result → World Parser → Option (World Parser)
  unfolding hanlde_accept hanlde_stop handle_read handle_write
  run_handler accepting r w = hanlde_accept H order r.ec r.throws w
  run_handler waiting_signal r w = some (hanlde_stop w)
  run_handler (reading p) r w = some (handle_read H order r.ec r.now p r.bytes w)
  run_handler (writing p buffers) r w =
      if is_owned p w then some (handle_write r.ec r.throws p w) else none

-- What is some value, if a test holds, and nothing if it does not.
pub some_if {ℓ} :
    {A : Type ℓ} {a b : A} (test : Bool)
    → (if test then some a else none) ≡ some b
    → some a ≡ some b
some_if true e = e
some_if false e = absurd (none-ne-some _ e)

abbrev pub is_transfer : Operation → Bool
is_transfer accepting = false
is_transfer waiting_signal = false
is_transfer (reading p) = true
is_transfer (writing p buffers) = true

module _ {P : Type 0} where
  -- The operation is on a closed socket; one that is late is a read or a write.
  abbrev pub OnClosed : World P → Operation → Type 0
  OnClosed w accepting = Unit
  OnClosed w waiting_signal = Unit
  OnClosed w (reading p) = (w.heap p).socket ≡ closed
  OnClosed w (writing p buffers) = (w.heap p).socket ≡ closed

  -- The operation is a write, on a connection that nobody owns.
  abbrev pub IsDangling : World P → Operation → Type 0
  IsDangling w op =
      (p : ℕ) × (buffers : List Bytes) × (op ≡ writing p buffers) × (is_owned p w ≡ false)

  -- A handler has run on a server that was stopped: the acceptor and the closed sockets stay so, and
  -- at most one operation was started, a read or a write on a closed socket.
  pub record IsHandled (w w' : World P) : Type 0 where
    pub shut : w'.acceptor_open ≡ false
    pub stays : (q : ℕ) → (w.heap q).socket ≡ closed → (w'.heap q).socket ≡ closed
    pub starts :
        (w'.pending ≡ w.pending)
        ⊎ ((op : Operation) × (is_transfer op ≡ true)
            × OnClosed w' op
            × (w'.pending ≡ op ∷ w.pending))

  manager_stop-IsHandled :
      (p : ℕ) (w : World P) → w.acceptor_open ≡ false → IsHandled w (manager_stop p w)
  unfolding manager_stop stop
  manager_stop-IsHandled p w s = record {
    shut = s;
    stays = λ q c. ground (arith, c);
    starts = inl refl;
  }

  stored-IsHandled :
      (p : ℕ) (c : Connection P) (w : World P)
      → c.socket ≡ (w.heap p).socket
      → w.acceptor_open ≡ false
      → IsHandled w (store p c w)
  stored-IsHandled p c w e s = record {
    shut = s;
    stays = λ q h. ground (arith, h, e, ==_iff q p);
    starts = inl refl;
  }

  socket-shutdown :
      (throws : Bool) (c : Connection P) → c.socket ≡ closed → (shutdown throws c).socket ≡ c.socket
  unfolding shutdown
  socket-shutdown true c e = refl
  socket-shutdown false c e = ground (arith, e)

  wrote-IsHandled :
      (ec : ErrorCode) (throws : Bool) (p : ℕ) (w : World P)
      → w.acceptor_open ≡ false
      → (w.heap p).socket ≡ closed
      → IsHandled w (handle_write ec throws p w)
  unfolding handle_write
  wrote-IsHandled (failure e) throws p w s c = manager_stop-IsHandled p w s
  wrote-IsHandled operation_aborted throws p w s c =
      stored-IsHandled p (shutdown throws (w.heap p)) w (socket-shutdown throws (w.heap p) c) s
  wrote-IsHandled success throws p w s c =
      stored-IsHandled p (shutdown throws (w.heap p)) w (socket-shutdown throws (w.heap p) c) s

  hanlde_stop-IsHandled : (w : World P) → IsHandled w (hanlde_stop w)
  hanlde_stop-IsHandled w = record {
    shut = (hanlde_stop_lem w 0).0;
    stays = λ q c. ground (arith, hanlde_stop_lem w q, c);
    starts = inl (hanlde_stop_lem w 0).2;
  }

module _ (H : HttpParser) (order : Assoc → Assoc) where
  open H use {Parser}

  socket-dispatch : (m : Method) (c : Connection Parser) → (dispatch m c).socket ≡ c.socket
  unfolding dispatch
  socket-dispatch get c = refl
  socket-dispatch post c = refl
  socket-dispatch put c = refl
  socket-dispatch del c = refl
  socket-dispatch invalid c = refl

  answer-IsHandled :
      (status : MessageStatus) (now : Tm) (p : ℕ) (w : World Parser)
      → w.acceptor_open ≡ false
      → (w.heap p).socket ≡ closed
      → IsHandled w (answer H order status now p w)
  unfolding answer respond
  answer-IsHandled want_more now p w s c = record {
    shut = s;
    stays = λ q h. h;
    starts = inr (reading p, refl, c, refl);
  }
  answer-IsHandled faild now p w s c = record {
    shut = s;
    stays = λ q h. h;
    starts = inr (writing p (refusal H order now), refl, c, refl);
  }
  answer-IsHandled complete now p w s c =
      let r = respond H order now (w.heap p) in
      let e : r.0.socket ≡ (w.heap p).socket =
        socket-dispatch (w.heap p).request.method (w.heap p) in
      let v = stored-IsHandled p r.0 w e s in
      record { shut = s; stays = v.stays; starts = inr (writing p r.1, refl, v.stays p c, refl) }

  take_bytes-IsHandled :
      (now : Tm) (p : ℕ) (bytes : Bytes) (w : World Parser)
      → w.acceptor_open ≡ false
      → (w.heap p).socket ≡ closed
      → IsHandled w (take_bytes H order now p bytes w)
  unfolding take_bytes
  take_bytes-IsHandled now p bytes w s c =
      let request = parse H (w.heap p).request bytes in
      let stored = store p (record (w.heap p) { request = request }) w in
      let v = stored-IsHandled p (record (w.heap p) { request = request }) w refl s in
      let a = answer-IsHandled request.message_status now p stored s (v.stays p c) in
      record { shut = a.shut; stays = λ q h. a.stays q (v.stays q h); starts = a.starts }

  read-IsHandled :
      (ec : ErrorCode) (now : Tm) (p : ℕ) (bytes : Bytes) (w : World Parser)
      → w.acceptor_open ≡ false
      → (w.heap p).socket ≡ closed
      → IsHandled w (handle_read H order ec now p bytes w)
  unfolding handle_read
  read-IsHandled (failure e) now p bytes w s c = manager_stop-IsHandled p w s
  read-IsHandled operation_aborted now p bytes w s c = take_bytes-IsHandled now p bytes w s c
  read-IsHandled success now p bytes w s c = take_bytes-IsHandled now p bytes w s c

  handled : {w v w' : World Parser} → IsHandled w v → some v ≡ some w' → IsHandled w w'
  handled {w} h e = subst (IsHandled w) (some-injective _ _ e) h

  pub run_handler-IsHandled :
      (op : Operation) (r : Result) (w w' : World Parser)
      → w.acceptor_open ≡ false
      → OnClosed w op
      → run_handler H order op r w ≡ some w'
      → IsHandled w w'
  unfolding run_handler
  run_handler-IsHandled accepting r w w' s c e =
      subst (IsHandled w) (sym (hanlde_accept_shut H order r.ec r.throws w w' s e))
        (record { shut = s; stays = λ q h. h; starts = inl refl })
  run_handler-IsHandled waiting_signal r w w' s c e = handled (hanlde_stop-IsHandled w) e
  run_handler-IsHandled (reading p) r w w' s c e =
      handled (read-IsHandled r.ec r.now p r.bytes w s c) e
  run_handler-IsHandled (writing p buffers) r w w' s c e =
      handled (wrote-IsHandled r.ec r.throws p w s c) (some_if (is_owned p w) e)

  -- With an error the handler of a read or a write starts nothing.
  pub failed_transfer :
      (op : Operation) (r : Result) (n : ℕ) (w w' : World Parser)
      → is_transfer op ≡ true
      → r.ec ≡ failure n
      → run_handler H order op r w ≡ some w'
      → w'.pending ≡ w.pending
  unfolding run_handler handle_read handle_write manager_stop stop
  failed_transfer accepting r n w w' t f e = absurd (ground (arith, t))
  failed_transfer waiting_signal r n w w' t f e = absurd (ground (arith, t))
  failed_transfer (reading p) r n w w' t f e =
      ap (λ v. v.pending) (sym (some-injective _ _ e))
      ∙ subst (λ x. (handle_read H order x r.now p r.bytes w).pending ≡ w.pending) (sym f) refl
  failed_transfer (writing p buffers) r n w w' t f e =
      ap (λ v. v.pending) (sym (some-injective _ _ (some_if (is_owned p w) e)))
      ∙ subst (λ x. (handle_write x r.throws p w).pending ≡ w.pending) (sym f) refl

  -- An operation may be refused, but a write on a connection that nobody owns.
  pub run_handler-refused :
      (op : Operation) (w : World Parser)
      → w.acceptor_open ≡ false
      → ((w' : World Parser) × (run_handler H order op refused w ≡ some w')
          × (w'.pending ≡ w.pending))
        ⊎ IsDangling w op
  unfolding run_handler handle_read handle_write manager_stop stop hanlde_accept
  run_handler-refused accepting w s = inl (w, ground (arith, s), refl)
  run_handler-refused waiting_signal w s = inl (hanlde_stop w, refl, (hanlde_stop_lem w 0).2)
  run_handler-refused (reading p) w s = inl (manager_stop p w, refl, refl)
  run_handler-refused (writing p buffers) w s = elim (Bool-cases (is_owned p w)) [
    | inl owned ↦ inl (manager_stop p w, rw owned refl, refl)
    | inr gone ↦ inr (p, buffers, refl, gone)
  ]
