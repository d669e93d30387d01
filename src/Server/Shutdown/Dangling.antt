-- ===== src/Server/Shutdown/Dangling.antt =====
-- Connections of src/http_server that are destroyed while a write handler still points at them:
-- connection::handle_read binds the handler of its write to `this` and to no shared pointer.
use learn_asio.Base.{
  ℕ, ◌+◌, ◌≤◌, ◌<◌, ◌≡◌, refl, ap, ◌∙◌, true, some, ◌⊎◌, inl, inr, List, [], ◌∷◌, ◌++◌, arith,
  Bytes, ◌==◌, ==_refl, if◌then◌else◌,
}
use learn_asio.Base.Assoc.{Assoc}
use learn_asio.HttpParser.{HttpParser}
use learn_asio.Message.{faild, parse}
use learn_asio.Response.Date.{Tm}
use learn_asio.Server.{
  operation_aborted, Operation, waiting_signal, reading, writing, World, mem, handle_read,
  hanlde_stop, take_bytes, new_server, refusal,
}
use learn_asio.Server.Pending.{touches, ops_on, ops_on_middle}
use learn_asio.Server.Steps.{Serves}
use learn_asio.Server.Fresh.{reads_on, reads_on_middle, reads_on-le, is_reading}
use learn_asio.Server.Invariant.{IsServing}
use learn_asio.Server.Serving.{Serves-IsServing, take_bytes-Rearms}
use learn_asio.Server.Shutdown.{hanlde_stop_lem, request-hanlde_stop}

-- A shared pointer to the connection is held: by the manager, by the server's member, or by the
-- handler of a read.
abbrev pub IsOwned : {P : Type 0} → World P → ℕ → Type 0
IsOwned w p =
    (mem p w.connections ≡ true) ⊎ (w.new_connection ≡ some p) ⊎ (0 < reads_on p w.pending)

module _ (H : HttpParser) (order : Assoc → Assoc) where
  open H use {Parser}

  -- A connection on which one operation, no read, is under way in a served state is owned by
  -- nobody once the manager lets go of all connections.
  disowned :
      {w : World Parser} (w' : World Parser) (p : ℕ) (op : Operation) (us vs : List Operation)
      → IsServing w
      → 1 ≤ ops_on p w.pending
      → touches p op ≡ 1
      → is_reading p op ≡ 0
      → w'.pending ≡ us ++ op ∷ vs
      → ops_on p w'.pending ≤ ops_on p w.pending
      → w'.connections ≡ []
      → w'.new_connection ≡ w.new_connection
      → ¬ IsOwned w' p
  disowned {w} w' p op us vs v busy on no_read split fewer empty spare (inl held) =
      cc (ap (mem p) empty)
  disowned {w} w' p op us vs v busy on no_read split fewer empty spare (inr (inl next)) =
      let same : v.spare.0 ≡ p = cc (v.spare.1.held) in
      ground (arith, same, v.spare.1.outside, v.kept p)
  disowned {w} w' p op us vs v busy on no_read split fewer empty spare (inr (inr read)) = ground (
    arith,
    v.kept p,
    ap (ops_on p) split,
    ops_on_middle p us vs op,
    ap (reads_on p) split,
    reads_on_middle p us vs op,
    reads_on-le p (us ++ vs),
  )

  touches_self : (p : ℕ) → ◌≡◌ {A = ℕ} (if p == p then 1 else 0) 1
  touches_self p = rw (==_refl p)

  ops_before :
      (p : ℕ) (op : Operation) (xs ys : List Operation) (w : World Parser)
      → w.pending ≡ xs ++ op ∷ ys
      → ops_on p w.pending ≡ touches p op + ops_on p (xs ++ ys)
  ops_before p op xs ys w split = ap (ops_on p) split ∙ ops_on_middle p xs ys op

  take_bytes_faild :
      (now : Tm) (p : ℕ) (w : World Parser)
      → (parse H (w.heap p).request []).message_status ≡ faild
      → (take_bytes H order now p [] w).pending ≡ writing p (refusal H order now) ∷ w.pending
  unfolding take_bytes
  take_bytes_faild now p w bad = rw bad

  -- If a signal is handled while an answer is being written to `p`, then the handler of that write
  -- is still to run, and nobody owns `p` any more.
  pub hanlde_stop_dangles :
      {w : World Parser} (xs ys us vs : List Operation) (p : ℕ) (buffers : List Bytes)
      → Serves H order (new_server H order) w
      → w.pending ≡ xs ++ waiting_signal ∷ ys
      → xs ++ ys ≡ us ++ writing p buffers ∷ vs
      → let w' = hanlde_stop (record w { pending = xs ++ ys }) in
        (w'.pending ≡ us ++ writing p buffers ∷ vs) × ¬ IsOwned w' p
  hanlde_stop_dangles {w} xs ys us vs p buffers r signal write =
      let w0 = record w { pending = xs ++ ys } in
      let w' = hanlde_stop w0 in
      let s = hanlde_stop_lem w0 p in
      let split = s.2 ∙ write in
      let total = ops_before p waiting_signal xs ys w signal in
      (
        split,
        disowned w' p (writing p buffers) us vs (Serves-IsServing H order r)
            (omega (
              arith,
              total,
              ap (ops_on p) write,
              ops_on_middle p us vs (writing p buffers),
              touches_self p,
            ))
            (touches_self p) refl split (omega (arith, total, ap (ops_on p) s.2)) s.1 s.3,
      )

  -- If a signal is handled while a request is being read on `p`, and the parser refuses the end of
  -- the input there, then the read that the signal aborts starts a write whose handler is still to
  -- run, and nobody owns `p` any more.
  pub aborted_read_dangles :
      {w : World Parser} (xs ys us vs : List Operation) (p : ℕ) (now : Tm)
      → Serves H order (new_server H order) w
      → w.pending ≡ xs ++ waiting_signal ∷ ys
      → xs ++ ys ≡ us ++ reading p ∷ vs
      → (parse H (w.heap p).request []).message_status ≡ faild
      → let w' = hanlde_stop (record w { pending = xs ++ ys }) in
        let w'' =
          handle_read H order operation_aborted now p [] (record w' { pending = us ++ vs }) in
        (w''.pending ≡ writing p (refusal H order now) ∷ us ++ vs) × ¬ IsOwned w'' p
  unfolding handle_read
  aborted_read_dangles {w} xs ys us vs p now r signal reads bad =
      let w0 = record w { pending = xs ++ ys } in
      let w' = hanlde_stop w0 in
      let s = hanlde_stop_lem w0 p in
      let request = request-hanlde_stop w0 p in
      let total = ops_before p waiting_signal xs ys w signal in
      let started =
        take_bytes_faild now p (record w' { pending = us ++ vs })
          (ap (λ m. (parse H m []).message_status) request ∙ bad) in
      let t = take_bytes-Rearms H order now p [] (record w' { pending = us ++ vs }) in
      let before = ap (ops_on p) reads ∙ ops_on_middle p us vs (reading p) in
      (
        started,
        disowned (take_bytes H order now p [] (record w' { pending = us ++ vs })) p
            (writing p (refusal H order now)) [] (us ++ vs) (Serves-IsServing H order r)
            (omega (arith, total, before, touches_self p)) (touches_self p) refl started
            (omega (arith, total, before, t.ops p)) (t.connections ∙ s.1) (t.new_connection ∙ s.3),
      )
