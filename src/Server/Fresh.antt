-- ===== src/Server/Fresh.antt =====
-- Until it answers, a connection of src/http_server has the response that its constructor made.
pub mod Kept
use learn_asio.Base.{
  ℕ, suc, ◌+◌, ◌≤◌, ◌<◌, ◌≡◌, ◌≢◌, refl, sym, ap, ◌∙◌, Bool, true, false, not, ◌&&◌, ◌||◌, Option,
  none, some, ◌⊎◌, inl, inr, List, [], ◌∷◌, ◌++◌, arith, Bytes, ◌==◌, ==_iff, ==_refl,
  if◌then◌else◌, Bool-cases,
}
use learn_asio.Base.Assoc.{Assoc}
use learn_asio.HttpParser.{HttpParser}
use learn_asio.Message.{MessageStatus, complete, want_more, faild, parse}
use learn_asio.Response.{default_response}
use learn_asio.Response.Date.{Tm}
use learn_asio.Server.{
  Connection, shutdown, connected, ErrorCode, success, operation_aborted, failure, Operation,
  accepting, waiting_signal, reading, writing, World, mem, set_erase, set_insert, manager_start,
  manager_stop, handle_read, handle_write, hanlde_accept, take_bytes, answer, start_accept,
  new_server, blank_server, store, begin, refusal, respond,
}
use learn_asio.Server.Pending.{touches, ops_on, ops_on_middle}
use learn_asio.Server.Steps.{Io, Serves}
use learn_asio.Server.Invariant.{IsServing}
use learn_asio.Server.Serving.{Serves-IsServing, hanlde_accept_cases, connect}

-- 1 if the operation is a read on the connection `p`, else 0.
abbrev pub is_reading : ℕ → Operation → ℕ
is_reading p accepting = 0
is_reading p waiting_signal = 0
is_reading p (reading q) = if q == p then 1 else 0
is_reading p (writing q buffers) = 0

abbrev pub reads_on : ℕ → List Operation → ℕ
reads_on p [] = 0
reads_on p (op ∷ ops) = is_reading p op + reads_on p ops

pub reads_on_middle :
    (p : ℕ) (xs ys : List Operation) (op : Operation)
    → reads_on p (xs ++ op ∷ ys) ≡ is_reading p op + reads_on p (xs ++ ys)
reads_on_middle p [] ys op = refl
reads_on_middle p (x ∷ xs) ys op = omega (arith, reads_on_middle p xs ys op)

pub reads_on-le : (p : ℕ) (ops : List Operation) → reads_on p ops ≤ ops_on p ops
reads_on-le p [] = omega arith
reads_on-le p (accepting ∷ ops) = omega (arith, reads_on-le p ops)
reads_on-le p (waiting_signal ∷ ops) = omega (arith, reads_on-le p ops)
reads_on-le p (reading q ∷ ops) = omega (arith, reads_on-le p ops)
reads_on-le p (writing q bs ∷ ops) = omega (arith, reads_on-le p ops)

module _ (H : HttpParser) (order : Assoc → Assoc) where
  open H use {Parser}

  -- Either nothing is being read on `p`, or its response is the one it was made with.
  abbrev pub IsFresh : World Parser → ℕ → Type 0
  IsFresh w p = (reads_on p w.pending ≡ 0) ⊎ ((w.heap p).response ≡ default_response H)

  -- The same of the connection that the next accept fills.
  abbrev pub SpareIsFresh : World Parser → Type 0
  SpareIsFresh w =
      (n : ℕ) × (w.new_connection ≡ some n) × ((w.heap n).response ≡ default_response H)

  -- A write to the heap, with nothing read on the connection; an operation that is no read.
  pub store-IsFresh :
      (p q : ℕ) (c : Connection Parser) (w : World Parser)
      → reads_on p w.pending ≡ 0
      → IsFresh w q
      → IsFresh (store p c w) q
  store-IsFresh p q c w left f = elim (Bool-cases (q == p)) [
    | inl same ↦ inl (rw ((==_iff q p).0 same) left)
    | inr other ↦ rw other f
  ]

  pub begin-IsFresh :
      (q : ℕ) (op : Operation) (w : World Parser)
      → is_reading q op ≡ 0
      → IsFresh w q
      → IsFresh (begin op w) q
  begin-IsFresh q op w none_read (inl left) = inl (omega (arith, none_read, left))
  begin-IsFresh q op w none_read (inr made) = inr made

  pub start-IsFresh :
      (p q : ℕ) (w : World Parser)
      → (w.heap p).response ≡ default_response H
      → IsFresh w q
      → IsFresh (begin (reading p) w) q
  start-IsFresh p q w made f = elim (Bool-cases (p == q)) [
    | inl same ↦ inr (rw ((==_iff p q).0 same) at made)
    | inr other ↦ begin-IsFresh q (reading p) w (rw other) f
  ]

  answer-IsFresh :
      (s : MessageStatus) (now : Tm) (p q : ℕ) (w : World Parser)
      → reads_on p w.pending ≡ 0
      → (w.heap p).response ≡ default_response H
      → IsFresh w q
      → IsFresh (answer H order s now p w) q
  unfolding answer
  answer-IsFresh want_more now p q w left made f = start-IsFresh p q w made f
  answer-IsFresh faild now p q w left made f =
      begin-IsFresh q (writing p (refusal H order now)) w refl f
  answer-IsFresh complete now p q w left made f =
      let r = respond H order now (w.heap p) in
      begin-IsFresh q (writing p r.1) (store p r.0 w) refl (store-IsFresh p q r.0 w left f)

  pub take_bytes-IsFresh :
      (now : Tm) (p q : ℕ) (bytes : Bytes) (w : World Parser)
      → reads_on p w.pending ≡ 0
      → (w.heap p).response ≡ default_response H
      → IsFresh w q
      → IsFresh (take_bytes H order now p bytes w) q
  unfolding take_bytes
  take_bytes-IsFresh now p q bytes w left made f =
      let c = record (w.heap p) { request = parse H (w.heap p).request bytes } in
      answer-IsFresh c.request.message_status now p q (store p c w) left (rw (==_refl p) made)
        (store-IsFresh p q c w left f)
