-- ===== src/Server/Shutdown/Winding.antt =====
-- What runs after a signal was handled by the server of src/http_server, whose sockets are closed.
use learn_asio.Base.{
  ℕ, suc, ◌≤◌, ◌≡◌, refl, sym, subst, ◌∙◌, inl, inr, true, some, List, [], ◌∷◌, ◌++◌, arith, length,
}
use mathlib.Core.List.{append_cancel_right}
use learn_asio.Base.Assoc.{Assoc}
use learn_asio.HttpParser.{HttpParser}
use mathlib.Core.Option.{some-injective}
use learn_asio.Server.Steps.{buffer_size, Io, Step, Runs}
use learn_asio.Server.{
  failure, Operation, accepting, waiting_signal, reading, writing, World, hanlde_stop,
}
use learn_asio.Server.Shutdown.Handlers.{
  Result, run_handler, OnClosed, is_transfer, IsHandled, is_owned, some_if,
}

module _ (H : HttpParser) (order : Assoc → Assoc) where
  open H use {Parser}

  -- What io_context::run goes on to after a signal was handled in the world `u`: the handlers that
  -- have run, the operations under way that were started since, and those that were under way
  -- already. These end in any way; one that was started on a socket that was closed already ends
  -- with an error, and not because it was aborted. A write on a connection that
  -- nobody owns any more has no handler that could run here.
  pub data Winds (u : World Parser)
      : ℕ → List Operation → List Operation → World Parser → Type 0 where
    stopped : Winds u 0 [] u.pending (hanlde_stop u)
    early :
        {n : ℕ} {late : List Operation} {w w' : World Parser} (xs ys started : List Operation)
        (op : Operation) (r : Result)
        → Winds u n late (xs ++ op ∷ ys) w
        → w.pending ≡ (late ++ xs) ++ op ∷ ys
        → length r.bytes ≤ buffer_size
        → run_handler H order op r (record w { pending = (late ++ xs) ++ ys }) ≡ some w'
        → w'.pending ≡ started ++ ((late ++ xs) ++ ys)
        → Winds u (suc n) (started ++ late) (xs ++ ys) w'
    late :
        {n : ℕ} {rest : List Operation} {w w' : World Parser} (xs ys started : List Operation)
        (op : Operation) (r : Result)
        → Winds u n (xs ++ op ∷ ys) rest w
        → w.pending ≡ xs ++ op ∷ (ys ++ rest)
        → length r.bytes ≤ buffer_size
        → (OnClosed w op → (e : ℕ) × (r.ec ≡ failure e))
        → run_handler H order op r (record w { pending = xs ++ (ys ++ rest) }) ≡ some w'
        → w'.pending ≡ started ++ (xs ++ (ys ++ rest))
        → Winds u (suc n) (started ++ (xs ++ ys)) rest w'

  handler-Step :
      (xs ys : List Operation) (op : Operation) (r : Result) (w w' : World Parser)
      → w.pending ≡ xs ++ op ∷ ys
      → length r.bytes ≤ buffer_size
      → run_handler H order op r (record w { pending = xs ++ ys }) ≡ some w'
      → Step H order w w'
  unfolding run_handler
  handler-Step xs ys accepting r w w' split fits e =
      Step.io (Io.accepted xs ys r.ec r.throws split e)
  handler-Step xs ys waiting_signal r w w' split fits e =
      Step.signalled xs ys split (sym (some-injective _ _ e))
  handler-Step xs ys (reading p) r w w' split fits e =
      Step.io (Io.read xs ys r.ec r.now p r.bytes split fits (sym (some-injective _ _ e)))
  handler-Step xs ys (writing p buffers) r w w' split fits e =
      let kept = some_if (is_owned p (record w { pending = xs ++ ys })) e in
      Step.io (Io.wrote xs ys r.ec r.throws p buffers split (sym (some-injective _ _ kept)))

  -- All of it is among what can happen after the signal.
  pub Winds-Runs :
      {u : World Parser} {n : ℕ} {late early : List Operation} {w : World Parser}
      → Winds u n late early w
      → Runs H order (hanlde_stop u) w
  Winds-Runs Winds.stopped = Runs.here
  Winds-Runs (Winds.early {late} {w} {w'} xs ys started op r prior split fits e f) =
      Runs.next (Winds-Runs prior) (handler-Step (late ++ xs) ys op r w w' split fits e)
  Winds-Runs (Winds.late {rest} {w} {w'} xs ys started op r prior split fits fails e f) =
      Runs.next (Winds-Runs prior) (handler-Step xs (ys ++ rest) op r w w' split fits e)

module _ {P : Type 0} where
  -- All of the operations are on closed sockets; those that are late are reads and writes.
  abbrev pub Closed : World P → List Operation → Type 0
  Closed w [] = Unit
  Closed w (op ∷ ops) = OnClosed w op × Closed w ops

  pub OnClosed-stays :
      {w w' : World P} → IsHandled w w' → (op : Operation) → OnClosed w op → OnClosed w' op
  OnClosed-stays h accepting c = c
  OnClosed-stays h waiting_signal c = c
  OnClosed-stays h (reading p) c = h.stays p c
  OnClosed-stays h (writing p buffers) c = h.stays p c

  pub Closed-stays :
      {w w' : World P} → IsHandled w w' → (ops : List Operation) → Closed w ops → Closed w' ops
  Closed-stays h [] c = c
  Closed-stays h (op ∷ ops) c = (OnClosed-stays h op c.0, Closed-stays h ops c.1)

  pub Closed-middle :
      (w : World P) (xs ys : List Operation) (op : Operation)
      → Closed w (xs ++ op ∷ ys)
      → OnClosed w op × Closed w (xs ++ ys)
  Closed-middle w [] ys op c = c
  Closed-middle w (x ∷ xs) ys op c = let m = Closed-middle w xs ys op c.1 in (m.0, (c.0, m.1))

abbrev pub Transfers : List Operation → Type 0
Transfers [] = Unit
Transfers (op ∷ ops) = (is_transfer op ≡ true) × Transfers ops

pub Transfers-middle :
    (xs ys : List Operation) (op : Operation)
    → Transfers (xs ++ op ∷ ys)
    → (is_transfer op ≡ true) × Transfers (xs ++ ys)
Transfers-middle [] ys op t = t
Transfers-middle (x ∷ xs) ys op t = let m = Transfers-middle xs ys op t.1 in (m.0, (t.0, m.1))

pub length-middle :
    (xs ys : List Operation) (op : Operation) → length (xs ++ op ∷ ys) ≡ suc (length (xs ++ ys))
length-middle [] ys op = refl
length-middle (x ∷ xs) ys op = omega (arith, length-middle xs ys op)

module _ {P : Type 0} where
  -- What a handler has started, in front of the rest.
  pub record IsStarted (w : World P) (started : List Operation) : Type 0 where
    pub on_closed : Closed w started
    pub transfers : Transfers started
    pub one : length started ≤ 1

  pub handler_starts :
      {w w' : World P} (started : List Operation)
      → IsHandled w w'
      → w'.pending ≡ started ++ w.pending
      → IsStarted w' started
  handler_starts {w} {w'} started h e = elim h.starts [
    | inl same ↦
        let none_started : started ≡ [] = append_cancel_right started [] w.pending (sym e ∙ same) in
        subst (IsStarted w') (sym none_started)
          (record { on_closed = tt; transfers = tt; one = omega arith })
    | inr (op, t, c, more) ↦
        let one_started : started ≡ op ∷ [] =
          append_cancel_right started (op ∷ []) w.pending (sym e ∙ more) in
        subst (IsStarted w') (sym one_started)
          (record { on_closed = (c, tt); transfers = (t, tt); one = omega arith })
  ]

  pub Closed-append :
      (w : World P) (xs ys : List Operation) → Closed w xs → Closed w ys → Closed w (xs ++ ys)
  Closed-append w [] ys c d = d
  Closed-append w (x ∷ xs) ys c d = (c.0, Closed-append w xs ys c.1 d)

pub Transfers-append : (xs ys : List Operation) → Transfers xs → Transfers ys → Transfers (xs ++ ys)
Transfers-append [] ys c d = d
Transfers-append (x ∷ xs) ys c d = (c.0, Transfers-append xs ys c.1 d)
