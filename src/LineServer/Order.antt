-- ===== src/LineServer/Order.antt =====
-- The lines that a session of tutorial/202.async_tcp_server_streambuf.cpp sends back.
use learn_asio.Base.{
  ℕ, suc, ◌≡◌, refl, sym, ap, subst, ◌∙◌, ◌⊎◌, inl, inr, Bool, true, false, some, List, [], ◌∷◌,
  ◌++◌, arith, Bytes, length, lacks,
}
use learn_asio.Outbox.{empty_outbox, push, on_written, Delivery, IsReady, Delivery-in_order}
use learn_asio.Streambuf.{getline, consume, getline_lem}
use learn_asio.LineServer.{
  LineSession, started, on_read, on_write, echo, end_read, end_write, Echoes, on_read-echo,
  on_error-outbox,
}

echo-line :
    (k : ℕ) (line rest : Bytes) (s : LineSession)
    → s.buffer ≡ line ++ 10 ∷ rest
    → lacks 10 line ≡ true
    → echo k s
      ≡ record s { buffer = consume k rest; outbox = push line s.outbox; reading = suc s.reading }
unfolding echo
echo-line k line rest s has first = rw (ap getline has ∙ getline_lem line rest first) refl

echo-read :
    (n k : ℕ) (arrived line rest : Bytes) (s : LineSession)
    → s.reading ≡ suc n
    → s.buffer ++ arrived ≡ line ++ 10 ∷ rest
    → lacks 10 line ≡ true
    → echo k (end_read n arrived s)
      ≡ record s { buffer = consume k rest; outbox = push line s.outbox }
echo-read n k arrived line rest s busy has first =
    echo-line k line rest (end_read n arrived s) has first
    ∙ ap (λ r. record s { buffer = consume k rest; outbox = push line s.outbox; reading = r })
        (sym busy)

wrote-outbox :
    (throws : Bool) (s s' : LineSession)
    → on_write false throws s ≡ some s'
    → record s { outbox = on_written s.outbox } ≡ s'
unfolding on_write
wrote-outbox throws s s' e = ground (arith, e)

-- A session's queue goes through a delivery of the lines that were read.
Echoes-Delivery :
    {ls ws : List Bytes} {s : LineSession} → Echoes ls ws s → Delivery empty_outbox ls ws s.outbox
unfolding started on_read on_write
Echoes-Delivery Echoes.here = Delivery.here
Echoes-Delivery
      (Echoes.read_line {ls} {ws} {s} {s'} n arrived line rest throws r busy has first e) =
    let k = suc (length line) in
    let left =
      on_read-echo throws k (end_read n arrived s) s' e
      ∙ echo-read n k arrived line rest s busy has first in
    subst (λ x. Delivery empty_outbox (ls ++ line ∷ []) ws x.outbox) (sym left)
      (Delivery.pushed line (Echoes-Delivery r))
Echoes-Delivery (Echoes.read_failed {ls} {ws} {s} {s'} n k arrived throws r busy e) =
    let f = on_error-outbox throws (end_read n arrived s) s' e in
    subst (Delivery empty_outbox ls ws) (sym f.0) (Echoes-Delivery r)
Echoes-Delivery (Echoes.wrote {ls} {ws} {s} {s'} xs ys m throws r split e) =
    subst (λ x. Delivery empty_outbox ls (ws ++ m ∷ []) x.outbox)
      (wrote-outbox throws (end_write (xs ++ ys) s) s' e)
      (Delivery.written xs ys m (Echoes-Delivery r) split)
Echoes-Delivery (Echoes.write_failed {ls} {ws} {s} {s'} xs ys m throws r split e) =
    let f = on_error-outbox throws (end_write (xs ++ ys) s) s' e in
    subst (Delivery empty_outbox ls ws) (sym f.0)
      (Delivery.failed xs ys m (Echoes-Delivery r) split)

abbrev IsReading : LineSession → Type 0
IsReading s = (s.reading ≡ 1) ⊎ (s.is_open ≡ false)

Echoes-IsReading : {ls ws : List Bytes} {s : LineSession} → Echoes ls ws s → IsReading s
unfolding started on_read on_write
Echoes-IsReading Echoes.here = inl refl
Echoes-IsReading (Echoes.read_line {s = s} {s'} n arrived line rest throws r busy has first e) =
    subst IsReading
      (sym (
        on_read-echo throws (suc (length line)) (end_read n arrived s) s' e
        ∙ echo-read n (suc (length line)) arrived line rest s busy has first))
      (Echoes-IsReading r)
Echoes-IsReading (Echoes.read_failed {s = s} {s'} n k arrived throws r busy e) =
    inr ((on_error-outbox throws (end_read n arrived s) s' e).1)
Echoes-IsReading (Echoes.wrote {s = s} {s'} xs ys m throws r split e) =
    subst IsReading (wrote-outbox throws (end_write (xs ++ ys) s) s' e) (Echoes-IsReading r)
Echoes-IsReading (Echoes.write_failed {s = s} {s'} xs ys m throws r split e) =
    inr ((on_error-outbox throws (end_write (xs ++ ys) s) s' e).1)

-- However reads and writes end, and in whatever order: the messages that a session has written,
-- and then those that wait, are the lines that it has read, in their order; the write under way, if
-- there is one, is the only one, and writes the first of those that wait; and while the socket is
-- open, exactly one read is under way.
pub Echoes-in_order :
    {ls ws : List Bytes} {s : LineSession}
    → Echoes ls ws s
    → (ws ++ s.outbox.messages ≡ ls) × IsReady s.outbox × ((s.reading ≡ 1) ⊎ (s.is_open ≡ false))
Echoes-in_order r =
    let (order, ready) = Delivery-in_order (Echoes-Delivery r) in (order, ready, Echoes-IsReading r)

-- When a line is read, it is queued to be sent back and the next read is started; and from the
-- buffer the line is removed, and then, out of what follows the line, as many bytes again. So what
-- the client sent before it had its answer is lost, in part or in whole.
on_read_loses :
    (n : ℕ) (arrived line rest : Bytes) (s : LineSession)
    → s.reading ≡ suc n
    → s.buffer ++ arrived ≡ line ++ 10 ∷ rest
    → lacks 10 line ≡ true
    → on_read false false (suc (length line)) (end_read n arrived s)
      ≡ some (record s { buffer = consume (suc (length line)) rest; outbox = push line s.outbox })
unfolding on_read
on_read_loses n arrived line rest s busy has first =
    let left = echo-read n (suc (length line)) arrived line rest s busy has first in
    ground (arith, left)
