-- ===== src/Outbox.antt =====
-- The queue of outgoing messages with one asynchronous write at a time, which the sessions of
-- tutorial/301.chat_server.cpp (outgoing_messages_, post, async_write, on_write) and of
-- tutorial/202.async_tcp_server_streambuf.cpp (messages_, on_read, write, on_write) both have.
use learn_asio.Base.{
  ◌≡◌, ◌≢◌, refl, ap, sym, ◌∙◌, ◌⊎◌, inl, inr, false, List, [], ◌∷◌, ◌++◌, append_assoc, arith,
  Bytes, is_empty, if◌then◌else◌,
}

-- The messages, and those whose write is under way. asio::buffer is not copied: the write sends
-- the front, which push_back leaves in place.
pub record Outbox : Type 0 where
  pub messages : List Bytes
  pub writing : List Bytes

abbrev pub empty_outbox : Outbox
empty_outbox = record { messages = []; writing = [] }

is_empty-append : (xs ys : List Bytes) → is_empty xs ≡ false → is_empty (xs ++ ys) ≡ false
is_empty-append [] ys h = absurd (ground (arith, h))
is_empty-append (x ∷ xs) ys h = refl

abbrev pub first : List Bytes → List Bytes
first [] = []
first (m ∷ ms) = m ∷ []

abbrev pub pop_front : List Bytes → List Bytes
pop_front [] = []
pop_front (m ∷ ms) = ms

-- async_write. There is no front to write if no message is left; the callers see to that.
unfoldable pub async_write : Outbox → Outbox
async_write o = record o { writing = first o.messages ++ o.writing }

-- session::post
unfoldable pub push : Bytes → Outbox → Outbox
unfolding async_write
push msg o =
    let queued = record o { messages = o.messages ++ msg ∷ [] } in
    if is_empty o.messages then async_write queued else queued

-- session::on_write past its test of the error code
unfoldable pub on_written : Outbox → Outbox
unfolding async_write
on_written o =
    let popped = record o { messages = pop_front o.messages } in
    if is_empty popped.messages then popped else async_write popped

-- From `o`: messages are pushed, and writes that are under way end, well or badly. The two lists
-- are the messages that were pushed and those whose write ended well, first one first.
pub data Delivery (o : Outbox) : List Bytes → List Bytes → Outbox → Type 0 where
  here : Delivery o [] [] o
  pushed :
      {ps ws : List Bytes} {o' : Outbox} (m : Bytes)
      → Delivery o ps ws o'
      → Delivery o (ps ++ m ∷ []) ws (push m o')
  written :
      {ps ws : List Bytes} {o' : Outbox} (xs ys : List Bytes) (m : Bytes)
      → Delivery o ps ws o'
      → o'.writing ≡ xs ++ m ∷ ys
      → Delivery o ps (ws ++ m ∷ []) (on_written (record o' { writing = xs ++ ys }))
  failed :
      {ps ws : List Bytes} {o' : Outbox} (xs ys : List Bytes) (m : Bytes)
      → Delivery o ps ws o'
      → o'.writing ≡ xs ++ m ∷ ys
      → Delivery o ps ws (record o' { writing = xs ++ ys })

-- The front message is being written; or a write has failed, and its message is still the front.
abbrev pub Ready : List Bytes → List Bytes → Type 0
Ready ms ws = (ws ≡ first ms) ⊎ ((ws ≡ []) × (is_empty ms ≡ false))

abbrev pub IsReady : Outbox → Type 0
IsReady o = Ready o.messages o.writing

push-Ready :
    (m : Bytes) (ms ws : List Bytes)
    → Ready ms ws
    → IsReady (push m (record { messages = ms; writing = ws }))
unfolding push async_write
push-Ready m [] ws (inl e) = inl (ap (λ w. m ∷ w) e)
push-Ready m [] ws (inr e) = absurd (ground (arith, e))
push-Ready m (x ∷ ms) ws (inl e) = inl e
push-Ready m (x ∷ ms) ws (inr e) = inr (e.0, refl)

pub push-IsReady : (m : Bytes) (o : Outbox) → IsReady o → IsReady (push m o)
push-IsReady m o r = push-Ready m o.messages o.writing r

pub push-messages : (m : Bytes) (o : Outbox) → (push m o).messages ≡ o.messages ++ m ∷ []
unfolding push async_write
push-messages m o = ground arith

pub no_middle : (xs ys : List Bytes) (m : Bytes) → [] ≢ xs ++ m ∷ ys
no_middle [] ys m e = absurd (ground (arith, e))
no_middle (x ∷ xs) ys m e = absurd (ground (arith, e))

-- A write that is under way is the only one, and its message is the front.
pub only_front :
    (xs ys : List Bytes) (m : Bytes) (ms : List Bytes)
    → Ready ms (xs ++ m ∷ ys)
    → (xs ++ ys ≡ []) × (ms ≡ m ∷ pop_front ms)
only_front xs ys m [] (inl e) = absurd (no_middle xs ys m (sym e))
only_front xs ys m ms (inr e) = absurd (no_middle xs ys m (sym e.0))
only_front [] ys m (x ∷ ms) (inl e) = ground (arith, e)
only_front (y ∷ xs) ys m (x ∷ ms) (inl e) = absurd (no_middle xs ys m (ground (arith, e)))

written-Ready : (ms : List Bytes) → IsReady (on_written (record { messages = ms; writing = [] }))
unfolding on_written async_write
written-Ready [] = inl refl
written-Ready (x ∷ []) = inl refl
written-Ready (x ∷ y ∷ ms) = inl refl

pub on_written-messages : (o : Outbox) → (on_written o).messages ≡ pop_front o.messages
unfolding on_written async_write
on_written-messages o = ground arith

-- What the end of a write, good or bad, leaves of a ready outbox.
pub on_written-IsReady :
    (xs ys : List Bytes) (m : Bytes) (o : Outbox)
    → IsReady o
    → o.writing ≡ xs ++ m ∷ ys
    → IsReady (on_written (record o { writing = xs ++ ys }))
on_written-IsReady xs ys m o r split =
    let f = only_front xs ys m o.messages (rw (sym split) r) in rw f.0 (written-Ready o.messages)

pub failed-IsReady :
    (xs ys : List Bytes) (m : Bytes) (o : Outbox)
    → IsReady o
    → o.writing ≡ xs ++ m ∷ ys
    → IsReady (record o { writing = xs ++ ys })
failed-IsReady xs ys m o r split =
    let f = only_front xs ys m o.messages (rw (sym split) r) in inr (f.0, rw f.1 refl)

-- Whatever is pushed and however the writes end, the messages that were written, and then those
-- that wait, are those that were pushed, in their order; and at most one write is under way, that
-- of the first message that waits.
pub Delivery-in_order :
    {ps ws : List Bytes} {o : Outbox}
    → Delivery empty_outbox ps ws o
    → (ws ++ o.messages ≡ ps) × IsReady o
Delivery-in_order Delivery.here = (refl, inl refl)
Delivery-in_order (Delivery.pushed {ps} {ws} {o'} m d) =
    let (e, r) = Delivery-in_order d in
    (
      rw (push-messages m o')
          (sym (append_assoc ws o'.messages (m ∷ [])) ∙ ap (λ l. l ++ m ∷ []) e),
      push-IsReady m o' r,
    )
Delivery-in_order (Delivery.written {ps} {ws} {o'} xs ys m d split) =
    let (e, r) = Delivery-in_order d in
    let f = only_front xs ys m o'.messages (rw (sym split) r) in
    (
      rw (on_written-messages (record o' { writing = xs ++ ys }))
          (append_assoc ws (m ∷ []) (pop_front o'.messages) ∙ ap (λ l. ws ++ l) (sym f.1) ∙ e),
      on_written-IsReady xs ys m o' r split,
    )
Delivery-in_order (Delivery.failed {ps} {ws} {o'} xs ys m d split) =
    let (e, r) = Delivery-in_order d in (e, failed-IsReady xs ys m o' r split)

-- Nothing is being written, and something waits.
abbrev pub IsStuck : Outbox → Type 0
IsStuck o = (o.writing ≡ []) × (is_empty o.messages ≡ false)

push-IsStuck : (m : Bytes) (o : Outbox) → IsStuck o → IsStuck (push m o)
unfolding push async_write
push-IsStuck m o s = (ground (arith, s), ground (arith, s, is_empty-append o.messages (m ∷ [])))

IsStuck-stays :
    {o : Outbox} {ps ws : List Bytes} {o' : Outbox}
    → Delivery o ps ws o'
    → IsStuck o
    → (ws ≡ []) × IsStuck o'
IsStuck-stays Delivery.here s = (refl, s)
IsStuck-stays (Delivery.pushed {ps} {ws} {o'} m d) s =
    let (e, t) = IsStuck-stays d s in (e, push-IsStuck m o' t)
IsStuck-stays (Delivery.written xs ys m d split) s =
    absurd (no_middle xs ys m (sym ((IsStuck-stays d s).1.0) ∙ split))
IsStuck-stays (Delivery.failed xs ys m d split) s =
    absurd (no_middle xs ys m (sym ((IsStuck-stays d s).1.0) ∙ split))

-- Once one write has failed, no message is ever written again, whatever is pushed after that.
failed_write_ends :
    {ps qs ws vs : List Bytes} {o o' : Outbox} (xs ys : List Bytes) (m : Bytes)
    → Delivery empty_outbox ps ws o
    → o.writing ≡ xs ++ m ∷ ys
    → Delivery (record o { writing = xs ++ ys }) qs vs o'
    → (vs ≡ []) × (o'.writing ≡ [])
failed_write_ends {o = o} xs ys m d split after =
    let f = only_front xs ys m o.messages (rw (sym split) ((Delivery-in_order d).1)) in
    let (e, s) = IsStuck-stays after (f.0, rw f.1 refl) in (e, s.0)
