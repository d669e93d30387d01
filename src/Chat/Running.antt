-- ===== src/Chat/Running.antt =====
-- The steps of the chat server of tutorial/301.chat_server.cpp, and the state of its sessions.
use learn_asio.Base.{
  ℕ, suc, ◌+◌, ◌≤◌, ◌<◌, ◌≡◌, Bool-cases, inr, refl, sym, ap, subst, ◌∙◌, Bool, true, false, Option,
  none, some, List, [], ◌∷◌, ◌++◌, arith, Bytes, codes, length, ◌==◌, ==_iff, if◌then◌else◌, inl,
}
use learn_asio.Outbox.{IsReady, no_middle, on_written-IsReady, failed-IsReady}
use learn_asio.Streambuf.{getline, consume}
use learn_asio.Chat.{
  Session, ChatServer, store, post, broadcast, on_error, on_read, on_write, on_accept, join,
  destroy, new_chat, empty_chat, start_session, welcome, take_line,
}
use learn_asio.Chat.Steps.{ChatStep, Chats, end_read, end_write}
use learn_asio.Chat.Broadcast.{copies, post-IsReady, broadcast-SameButHeap}
use learn_asio.Chat.Invariant.{
  IsChatting, store-IsChatting, broadcast-IsChatting, add-IsChatting, accept-IsChatting,
  copies_middle,
}

abbrev pub AllChatting : ChatServer → Type 0
AllChatting w = (p : ℕ) → IsChatting w p

take_line-IsChatting :
    (n p : ℕ) (w : ChatServer)
    → 1 ≤ copies p w.sessions
    → AllChatting w
    → AllChatting (take_line n p w)
unfolding take_line
take_line-IsChatting n p w joined v q =
    let s = w.heap p in
    let got = getline s.buffer in
    let taken = store p (record s { buffer = consume n got.1 }) w in
    let told = broadcast (s.name ++ got.0) taken in
    let at_taken : AllChatting taken = λ r.
      store-IsChatting p (record s { buffer = consume n got.1 }) w r ((v p).ready) ((v p).reads)
        joined (v r) in
    let at_told : AllChatting told =
      λ r. broadcast-IsChatting (s.name ++ got.0) taken r (at_taken r) in
    let same = broadcast-SameButHeap (s.name ++ got.0) taken in
    store-IsChatting p (post got.0 (told.heap p)) told q
      (post-IsReady got.0 (told.heap p) (at_told p).ready) ((at_told p).reads) (rw same.1 joined)
      (at_told q)

pub on_read-IsChatting :
    (error : Bool) (k p : ℕ) (w : ChatServer)
    → 1 ≤ copies p w.sessions
    → AllChatting w
    → AllChatting (on_read error k p w)
unfolding on_read on_error
on_read-IsChatting true k p w joined v q =
    store-IsChatting p (on_error (w.heap p)) w q ((v p).ready) ((v p).reads) joined (v q)
on_read-IsChatting false k p w joined v q = take_line-IsChatting k p w joined v q

pub end_read-IsChatting :
    (n p : ℕ) (arrived : Bytes) (w : ChatServer)
    → (w.heap p).reading ≡ suc n
    → AllChatting w
    → AllChatting (end_read n arrived p w) × (1 ≤ copies p w.sessions)
end_read-IsChatting n p arrived w busy v =
    let joined : 1 ≤ copies p w.sessions = omega (arith, (v p).reads, busy) in
    (
      λ q.
          store-IsChatting p
            (record (w.heap p) { buffer = (w.heap p).buffer ++ arrived; reading = n }) w q
            ((v p).ready) (omega (arith, (v p).reads, busy)) joined (v q),
      joined,
    )

on_write-IsReady :
    (error : Bool) (xs ys : List Bytes) (m : Bytes) (s : Session)
    → IsReady s.outbox
    → s.outbox.writing ≡ xs ++ m ∷ ys
    → IsReady (on_write error (end_write (xs ++ ys) s)).outbox
unfolding on_write on_error
on_write-IsReady true xs ys m s r split = failed-IsReady xs ys m s.outbox r split
on_write-IsReady false xs ys m s r split = on_written-IsReady xs ys m s.outbox r split

on_write-reading :
    (error : Bool) (rest : List Bytes) (s : Session)
    → (on_write error (end_write rest s)).reading ≡ s.reading
unfolding on_write on_error
on_write-reading true rest s = refl
on_write-reading false rest s = refl

-- A session with a write under way has joined.
writer_joined :
    (xs ys : List Bytes) (m : Bytes) (w : ChatServer) (p : ℕ)
    → IsChatting w p
    → (w.heap p).outbox.writing ≡ xs ++ m ∷ ys
    → 1 ≤ copies p w.sessions
writer_joined xs ys m w p v split = elim (Bool-cases (copies p w.sessions == 0)) [
  | inl out ↦ absurd (
      no_middle xs ys m (
        sym (ap (λ s. s.outbox.writing) (v.blank ((==_iff (copies p w.sessions) 0).0 out)))
        ∙ split))
  | inr some_of ↦ ground arith
]

wrote-IsChatting :
    (p : ℕ) (xs ys : List Bytes) (m : Bytes) (error : Bool) (w : ChatServer)
    → (w.heap p).outbox.writing ≡ xs ++ m ∷ ys
    → AllChatting w
    → AllChatting (store p (on_write error (end_write (xs ++ ys) (w.heap p))) w)
wrote-IsChatting p xs ys m error w split v q =
    store-IsChatting p (on_write error (end_write (xs ++ ys) (w.heap p))) w q
      (on_write-IsReady error xs ys m (w.heap p) ((v p).ready) split)
      (omega (arith, on_write-reading error (xs ++ ys) (w.heap p), (v p).reads))
      (writer_joined xs ys m w p (v p) split) (v q)

-- The session that an accept held has not joined.
abbrev pub IsHeld : ℕ → ChatServer → Type 0
IsHeld p w = (copies p w.sessions + copies p w.accepting ≡ 0) × (p < w.next)

pub take_accept :
    (xs ys : List ℕ) (p : ℕ) (w : ChatServer)
    → w.accepting ≡ xs ++ p ∷ ys
    → AllChatting w
    → AllChatting (record w { accepting = xs ++ ys }) × IsHeld p (record w { accepting = xs ++ ys })
take_accept xs ys p w split v =
    let many : (q : ℕ) → copies q w.accepting ≡ (if q == p then 1 else 0) + copies q (xs ++ ys) =
      λ q. ap (copies q) split ∙ copies_middle q p xs ys in
    (
      λ q. record {
        ready = (v q).ready;
        reads = (v q).reads;
        held = ground (arith, (v q).held, many q);
        blank = (v q).blank;
      },
      ground (arith, (v p).held, many p, ==_iff p p),
    )

join-IsChatting :
    (joined endpoint : Bytes) (p : ℕ) (w : ChatServer)
    → IsHeld p w
    → AllChatting w
    → AllChatting (join joined endpoint p w)
unfolding join
join-IsChatting joined endpoint p w held v q =
    let msg = joined ++ codes " joined" ++ 10 ∷ [] in
    let told = broadcast msg w in
    let same = broadcast-SameButHeap msg w in
    let at_told : AllChatting told = λ r. broadcast-IsChatting msg w r (v r) in
    let s = start_session endpoint (post welcome (told.heap p)) in
    accept-IsChatting (record (store p s told) { sessions = told.sessions ++ p ∷ [] }) q
      (add-IsChatting p s told q (post-IsReady welcome (told.heap p) (at_told p).ready)
        (omega (arith, (at_told p).reads, ap (copies p) same.1, held.0))
        (rw (same.1, same.2) held.0) (rw same.0 held.1) (at_told q))

on_accept-IsChatting :
    (error : Bool) (joined endpoint : Option Bytes) (p : ℕ) (w w' : ChatServer)
    → IsHeld p w
    → on_accept error joined endpoint p w ≡ some w'
    → AllChatting w
    → AllChatting w'
unfolding on_accept destroy
on_accept-IsChatting true joined endpoint p w w' held e v =
    subst AllChatting (ground (arith, e))
      λ q. broadcast-IsChatting ((w.heap p).name ++ codes " has left the chat") w q (v q)
on_accept-IsChatting false none endpoint p w w' held e v = absurd (ground (arith, e))
on_accept-IsChatting false (some joined) none p w w' held e v = absurd (ground (arith, e))
on_accept-IsChatting false (some joined) (some endpoint) p w w' held e v =
    subst AllChatting (ground (arith, e)) (join-IsChatting joined endpoint p w held v)

pub ChatStep-IsChatting : {w w' : ChatServer} → ChatStep w w' → AllChatting w → AllChatting w'
ChatStep-IsChatting {w} {w'} (ChatStep.accepted xs ys p error joined endpoint split e) v =
    let (at_w, held) = take_accept xs ys p w split v in
    on_accept-IsChatting error joined endpoint p (record w { accepting = xs ++ ys }) w' held e at_w
ChatStep-IsChatting {w} (ChatStep.read_line p n arrived line rest busy has first e) v =
    let (at_w, joined) = end_read-IsChatting n p arrived w busy v in
    rw e (on_read-IsChatting false (suc (length line)) p (end_read n arrived p w) joined at_w)
ChatStep-IsChatting {w} (ChatStep.read_failed p n k arrived busy e) v =
    let (at_w, joined) = end_read-IsChatting n p arrived w busy v in
    rw e (on_read-IsChatting true k p (end_read n arrived p w) joined at_w)
ChatStep-IsChatting {w} (ChatStep.wrote p xs ys m error split e) v =
    rw e (wrote-IsChatting p xs ys m error w split v)

pub new_chat-IsChatting : AllChatting new_chat
unfolding new_chat
new_chat-IsChatting p =
    accept-IsChatting empty_chat p
      (record { ready = inl refl; reads = omega arith; held = ground arith; blank = λ out. refl })

-- Whatever is accepted, read and written, and in whatever order, of each session of the chat: the
-- write under way, if there is one, is the only one, and writes the first message of its queue; if
-- there is none, its queue is empty or it has messages that nothing is going to write; it stands
-- in the vector or is held by an accept, and that once, only if it was allocated; it has at most
-- one read under way, and that only if it stands in the vector; and if it does not stand there,
-- it is as it was made.
pub Chats-IsChatting : {w : ChatServer} (p : ℕ) → Chats new_chat w → IsChatting w p
Chats-IsChatting p Chats.here = new_chat-IsChatting p
Chats-IsChatting p (Chats.next r s) = ChatStep-IsChatting s (λ q. Chats-IsChatting q r) p
