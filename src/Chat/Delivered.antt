-- ===== src/Chat/Delivered.antt =====
-- That the chat server of tutorial/301.chat_server.cpp delivers the one log of its room.
use learn_asio.Base.{
  ℕ, suc, ◌≡◌, refl, sym, ap, ◌∙◌, Bool, true, false, not, Option, none, some, List, [], ◌∷◌, ◌++◌,
  append-nil, append_assoc, arith, Bytes, codes, length, lacks, ◌==◌, ==_iff, if◌then◌else◌,
}
use learn_asio.Outbox.{only_front, on_written-messages}
use learn_asio.Chat.{
  Session, ChatServer, store, broadcast, on_error, on_read, on_write, on_accept, join, destroy,
  new_chat, accept,
}
use learn_asio.Chat.Steps.{ChatStep, Chats, end_read, end_write}
use learn_asio.Chat.Broadcast.{copies, broadcast-SameButHeap}
use learn_asio.Chat.Running.{AllChatting, Chats-IsChatting, IsHeld, take_accept}
use learn_asio.Chat.Effects.{on_read_lem}
use learn_asio.Chat.Silent.{on_read-Frame}
use learn_asio.Chat.Room.{
  Entry, heard, is_inside, admission, said, wrote_to, log, written, is_member,
}
use learn_asio.Chat.Entries.{
  heard-append, is_inside-append, broadcast-messages, heard-admission, heap-new_chat, join-messages,
  join-is_member, welcomes,
}

-- What the entries of one step, and the messages that it writes, are to the messages of `q` that
-- wait, and to its membership.
abbrev Obeys : ℕ → ChatServer → ChatServer → List Entry → List Bytes → Type 0
Obeys q w w' es ws =
    (ws ++ (w'.heap q).outbox.messages ≡ (w.heap q).outbox.messages ++ heard q (is_member q w) es)
    × (is_member q w' ≡ is_inside q (is_member q w) es)

accept-Obeys :
    (error : Bool) (joined endpoint : Option Bytes) (p q : ℕ) (w w' : ChatServer)
    → IsHeld p w
    → AllChatting w
    → on_accept error joined endpoint p w ≡ some w'
    → Obeys q w w' (admission error joined endpoint p (w.heap p).name) []
unfolding on_accept destroy admission is_inside
accept-Obeys true joined endpoint p q w w' held v e =
    let msg = (w.heap p).name ++ codes " has left the chat" in
    let left : broadcast msg w ≡ w' = ground (arith, e) in
    rw (sym left) (
      broadcast-messages msg q w (ground (arith, (v q).held)),
      ap (λ ps. not (copies q ps == 0)) ((broadcast-SameButHeap msg w).1),
    )
accept-Obeys false none endpoint p q w w' held v e = absurd (ground (arith, e))
accept-Obeys false (some joined) none p q w w' held v e = absurd (ground (arith, e))
accept-Obeys false (some joined) (some endpoint) p q w w' held v e =
    let left : join joined endpoint p w ≡ w' = ground (arith, e) in
    let msg = joined ++ codes " joined" ++ 10 ∷ [] in
    rw (sym left) (
      join-messages joined endpoint p q w held v
          ∙ append_assoc (w.heap q).outbox.messages
              (heard q (is_member q w) (Entry.to_all msg ∷ [])) (welcomes q p)
          ∙ ap (λ l. (w.heap q).outbox.messages ++ l)
              (sym (heard-admission q p (is_member q w) joined endpoint (w.heap p).name)),
      join-is_member joined endpoint p q w,
    )

store-messages :
    (p q : ℕ) (s : Session) (w : ChatServer)
    → s.outbox.messages ≡ (w.heap p).outbox.messages
    → ((store p s w).heap q).outbox.messages ≡ (w.heap q).outbox.messages
store-messages p q s w e = ground (arith, e, ==_iff q p)

read_line-Obeys :
    (p n q : ℕ) (arrived line rest : Bytes) (w : ChatServer)
    → Chats new_chat w
    → (w.heap p).reading ≡ suc n
    → (w.heap p).buffer ++ arrived ≡ line ++ 10 ∷ rest
    → lacks 10 line ≡ true
    → Obeys q w
        (on_read false (suc (length line)) p (end_read n arrived p w))
        (Entry.to_all ((w.heap p).name ++ line) ∷ Entry.to_one p line ∷ [])
        []
unfolding heard is_inside
read_line-Obeys p n q arrived line rest w r busy has first =
    let (same, _) = on_read-Frame false (suc (length line)) p (end_read n arrived p w) q in
    (
      (on_read_lem n p q arrived line rest r busy has first).0
          ∙ ap (λ l. (w.heap q).outbox.messages ++ l) (ground (arith)),
      ap (λ ps. not (copies q ps == 0)) (same.1),
    )

read_failed-Obeys :
    (p n k q : ℕ) (arrived : Bytes) (w : ChatServer)
    → Obeys q w (on_read true k p (end_read n arrived p w)) [] []
unfolding heard is_inside on_read on_error
read_failed-Obeys p n k q arrived w =
    (ground (arith, ==_iff q p, append-nil (w.heap q).outbox.messages), refl)

wrote-Obeys :
    (p q : ℕ) (xs ys : List Bytes) (m : Bytes) (error : Bool) (w : ChatServer)
    → (w.heap p).outbox.writing ≡ xs ++ m ∷ ys
    → AllChatting w
    → Obeys q w
        (store p (on_write error (end_write (xs ++ ys) (w.heap p))) w)
        []
        (if error then [] else if q == p then m ∷ [] else [])
unfolding heard is_inside on_write on_error
wrote-Obeys p q xs ys m true w split v =
    (ground (arith, ==_iff q p, append-nil (w.heap q).outbox.messages), refl)
wrote-Obeys p q xs ys m false w split v =
    let o = (w.heap p).outbox in
    let front = (only_front xs ys m o.messages (rw (sym split) ((v p).ready))).1 in
    (
      ground (
        arith,
        ==_iff q p,
        append-nil (w.heap q).outbox.messages,
        front,
        on_written-messages (record o { writing = xs ++ ys }),
      ),
      refl,
    )

ChatStep-Obeys :
    {w w' : ChatServer} (q : ℕ) (s : ChatStep w w')
    → Chats new_chat w
    → Obeys q w w' (said s) (wrote_to q s)
unfolding said wrote_to
ChatStep-Obeys {w} {w'} q (ChatStep.accepted xs ys p error joined endpoint split e) r =
    let (at_w, held) = take_accept xs ys p w split λ x. Chats-IsChatting x r in
    accept-Obeys error joined endpoint p q (record w { accepting = xs ++ ys }) w' held at_w e
ChatStep-Obeys {w} q (ChatStep.read_line p n arrived line rest busy has first e) r =
    rw e (read_line-Obeys p n q arrived line rest w r busy has first)
ChatStep-Obeys {w} q (ChatStep.read_failed p n k arrived busy e) r =
    rw e (read_failed-Obeys p n k q arrived w)
ChatStep-Obeys {w} q (ChatStep.wrote p xs ys m true split e) r =
    rw e (wrote-Obeys p q xs ys m true w split λ x. Chats-IsChatting x r)
ChatStep-Obeys {w} q (ChatStep.wrote p xs ys m false split e) r =
    rw e (wrote-Obeys p q xs ys m false w split λ x. Chats-IsChatting x r)

-- Whatever is accepted, read and written, and in whatever order, there is one log of what was said
-- such that every session is written the messages of that log that were said to all after it had
-- entered, and those said to it alone, in the order of the log and each once: what was written to
-- it, and then what waits, is what it hears of the log. A session stands in the vector exactly if
-- it has entered.
pub Chats-heard :
    {w : ChatServer} (q : ℕ) (r : Chats new_chat w)
    → (written q r ++ (w.heap q).outbox.messages ≡ heard q false (log r))
      × (is_member q w ≡ is_inside q false (log r))
unfolding written log new_chat accept heard is_inside
Chats-heard q Chats.here = (ap (λ s. s.outbox.messages) (heap-new_chat q), refl)
Chats-heard q (Chats.next {u = w} {v = w'} r s) =
    let (hears, enters) = Chats-heard q r in
    let (obeys, moves) = ChatStep-Obeys q s r in
    let inside = is_member q w in
    (
      append_assoc (written q r) (wrote_to q s) (w'.heap q).outbox.messages
          ∙ ap (λ l. written q r ++ l) obeys
          ∙ sym (append_assoc (written q r) (w.heap q).outbox.messages (heard q inside (said s)))
          ∙ ap (λ l. l ++ heard q inside (said s)) hears
          ∙ ap (λ b. heard q false (log r) ++ heard q b (said s)) enters
          ∙ sym (heard-append q false (log r) (said s)),
      moves
          ∙ ap (λ b. is_inside q b (said s)) enters
          ∙ sym (is_inside-append q false (log r) (said s)),
    )
