-- ===== src/Chat/InFull.antt =====
-- When the chat server of tutorial/301.chat_server.cpp has delivered everything that a session hears.
use learn_asio.Base.{
  ℕ, zero, suc, ◌≡◌, refl, sym, ap, subst, ◌∙◌, Bool, true, false, ◌||◌, Option, none, some, List,
  [], ◌∷◌, ◌++◌, append-nil, arith, Bytes, codes, length, ◌==◌,
}
use learn_asio.Outbox.{first, push, async_write, on_written, only_front}
use learn_asio.Streambuf.{getline, consume}
use learn_asio.Chat.{
  Session, ChatServer, new_session, update, store, post, broadcast, on_error, on_read, on_write,
  on_accept, join, destroy, new_chat, start_session, welcome, accept, take_line,
}
use learn_asio.Chat.Steps.{ChatStep, Chats, end_read, end_write}
use learn_asio.Chat.Broadcast.{copies, post_times, heap-broadcast}
use learn_asio.Chat.Invariant.{update-cases}
use learn_asio.Chat.Running.{Chats-IsChatting}
use learn_asio.Chat.Room.{heard, log, written}
use learn_asio.Chat.Delivered.{Chats-heard}

-- The first message that waits, if there is one, is being written.
abbrev IsMoving : Session → Type 0
IsMoving s = s.outbox.writing ≡ first s.outbox.messages

push-first :
    (m : Bytes) (ms ws : List Bytes)
    → ws ≡ first ms
    → let o = push m (record { messages = ms; writing = ws }) in o.writing ≡ first o.messages
unfolding push async_write
push-first m [] ws e = ap (λ w. m ∷ w) e
push-first m (x ∷ ms) ws e = e

on_written-first :
    (ms : List Bytes)
    → let o = on_written (record { messages = ms; writing = [] }) in o.writing ≡ first o.messages
unfolding on_written async_write
on_written-first [] = refl
on_written-first (x ∷ []) = refl
on_written-first (x ∷ y ∷ ms) = refl

post-IsMoving : (msg : Bytes) (s : Session) → IsMoving s → IsMoving (post msg s)
unfolding post
post-IsMoving msg s e = push-first msg s.outbox.messages s.outbox.writing e

post_times-IsMoving :
    (n : ℕ) (msg : Bytes) (s : Session) → IsMoving s → IsMoving (post_times n msg s)
post_times-IsMoving zero msg s e = e
post_times-IsMoving (suc n) msg s e = post_times-IsMoving n msg (post msg s) (post-IsMoving msg s e)

broadcast-IsMoving :
    (msg : Bytes) (w : ChatServer) (q : ℕ)
    → IsMoving (w.heap q)
    → IsMoving ((broadcast msg w).heap q)
broadcast-IsMoving msg w q e =
    rw (heap-broadcast msg w q) (post_times-IsMoving (copies q w.sessions) msg (w.heap q) e)

store-IsMoving :
    (p q : ℕ) (s : Session) (w : ChatServer)
    → (IsMoving (w.heap p) → IsMoving s)
    → IsMoving (w.heap q)
    → IsMoving ((store p s w).heap q)
store-IsMoving p q s w goes e =
    update-cases IsMoving w.heap p s q (λ same. goes (subst (λ x. IsMoving (w.heap x)) same e))
      λ other. e

on_read-IsMoving :
    (error : Bool) (n p q : ℕ) (w : ChatServer)
    → IsMoving (w.heap q)
    → IsMoving ((on_read error n p w).heap q)
unfolding on_read on_error take_line
on_read-IsMoving true n p q w e = store-IsMoving p q (on_error (w.heap p)) w (λ f. f) e
on_read-IsMoving false n p q w e =
    let s = w.heap p in
    let got = getline s.buffer in
    let rest = record s { buffer = consume n got.1 } in
    let taken = store p rest w in
    let told = broadcast (s.name ++ got.0) taken in
    store-IsMoving p q (post got.0 (told.heap p)) told (post-IsMoving got.0 (told.heap p))
      (broadcast-IsMoving (s.name ++ got.0) taken q (store-IsMoving p q rest w (λ f. f) e))

join-IsMoving :
    (joined endpoint : Bytes) (p q : ℕ) (w : ChatServer)
    → IsMoving (w.heap q)
    → IsMoving ((join joined endpoint p w).heap q)
unfolding join accept start_session
join-IsMoving joined endpoint p q w e =
    let msg = joined ++ codes " joined" ++ 10 ∷ [] in
    let told = broadcast msg w in
    let s = start_session endpoint (post welcome (told.heap p)) in
    update-cases IsMoving (update told.heap p s) told.next new_session q (λ new. refl)
      λ away.
        store-IsMoving p q s told (post-IsMoving welcome (told.heap p))
          (broadcast-IsMoving msg w q e)

on_accept-IsMoving :
    (error : Bool) (joined endpoint : Option Bytes) (p q : ℕ) (w w' : ChatServer)
    → on_accept error joined endpoint p w ≡ some w'
    → IsMoving (w.heap q)
    → IsMoving (w'.heap q)
unfolding on_accept destroy
on_accept-IsMoving true joined endpoint p q w w' e v =
    let left : broadcast ((w.heap p).name ++ codes " has left the chat") w ≡ w' =
      ground (arith, e) in
    rw (sym left) (broadcast-IsMoving ((w.heap p).name ++ codes " has left the chat") w q v)
on_accept-IsMoving false none endpoint p q w w' e v = absurd (ground (arith, e))
on_accept-IsMoving false (some joined) none p q w w' e v = absurd (ground (arith, e))
on_accept-IsMoving false (some joined) (some endpoint) p q w w' e v =
    let left : join joined endpoint p w ≡ w' = ground (arith, e) in
    rw (sym left) (join-IsMoving joined endpoint p q w v)

-- Whether a step, or a step of a run, was a write to `q` that failed.
unfoldable pub fails : {w w' : ChatServer} → ℕ → ChatStep w w' → Bool
fails q (ChatStep.accepted xs ys p error joined endpoint split e) = false
fails q (ChatStep.read_line p n arrived line rest busy has first e) = false
fails q (ChatStep.read_failed p n k arrived busy e) = false
fails q (ChatStep.wrote p xs ys m false split e) = false
fails q (ChatStep.wrote p xs ys m true split e) = q == p

unfoldable pub has_failed : {w : ChatServer} → ℕ → Chats new_chat w → Bool
unfolding fails
has_failed q Chats.here = false
has_failed q (Chats.next r s) = has_failed q r || fails q s

ChatStep-IsMoving :
    {w w' : ChatServer} (q : ℕ) (s : ChatStep w w')
    → Chats new_chat w
    → fails q s ≡ false
    → IsMoving (w.heap q)
    → IsMoving (w'.heap q)
unfolding fails on_write
ChatStep-IsMoving {w} {w'} q (ChatStep.accepted xs ys p error joined endpoint split e) r f v =
    on_accept-IsMoving error joined endpoint p q (record w { accepting = xs ++ ys }) w' e v
ChatStep-IsMoving {w} q (ChatStep.read_line p n arrived line rest busy has first e) r f v = rw e (
    on_read-IsMoving false (suc (length line)) p q (end_read n arrived p w) (
      store-IsMoving p q (record (w.heap p) { buffer = (w.heap p).buffer ++ arrived; reading = n })
        w (λ x. x) v))
ChatStep-IsMoving {w} q (ChatStep.read_failed p n k arrived busy e) r f v = rw e (
    on_read-IsMoving true k p q (end_read n arrived p w) (
      store-IsMoving p q (record (w.heap p) { buffer = (w.heap p).buffer ++ arrived; reading = n })
        w (λ x. x) v))
ChatStep-IsMoving {w} q (ChatStep.wrote p xs ys m true split e) r f v = rw (e, f) v
ChatStep-IsMoving {w} q (ChatStep.wrote p xs ys m false split e) r f v =
    let o = (w.heap p).outbox in
    let alone = (only_front xs ys m o.messages (rw (sym split) ((Chats-IsChatting p r).ready))).0 in
    rw e (
      store-IsMoving p q (on_write false (end_write (xs ++ ys) (w.heap p))) w
        (λ _. rw alone (on_written-first o.messages)) v)

Chats-IsMoving :
    {w : ChatServer} (q : ℕ) (r : Chats new_chat w) → has_failed q r ≡ false → IsMoving (w.heap q)
unfolding has_failed new_chat accept
Chats-IsMoving q Chats.here f = ground (arith)
Chats-IsMoving q (Chats.next r s) f =
    ChatStep-IsMoving q s r (ground (arith, f)) (Chats-IsMoving q r (ground (arith, f)))

-- Unless a write to a session has failed: once no write to it is under way, it was written exactly
-- what it hears of the log, to the last message.
pub heard_in_full :
    {w : ChatServer} (q : ℕ) (r : Chats new_chat w)
    → has_failed q r ≡ false
    → (w.heap q).outbox.writing ≡ []
    → written q r ≡ heard q false (log r)
heard_in_full {w} q r f idle =
    let moving = Chats-IsMoving q r f in
    let nothing : (w.heap q).outbox.messages ≡ [] = ground (arith, moving, idle) in
    sym (append-nil (written q r)) ∙ ap (λ l. written q r ++ l) (sym nothing) ∙ (Chats-heard q r).0
