-- ===== src/Chat/Effects.antt =====
-- Whom a message reaches in the chat of tutorial/301.chat_server.cpp, and what a read does.
use learn_asio.Base.{
  ℕ, zero, suc, ◌≤◌, ◌≡◌, refl, sym, ap, ◌∙◌, true, false, List, [], ◌∷◌, ◌++◌, append-nil,
  append_assoc, arith, Bytes, length, lacks, ◌==◌, ==_iff, if◌then◌else◌,
}
use learn_asio.Chat.{
  Session, ChatServer, store, post, post_at, broadcast, on_read, take_line, new_chat,
}
use learn_asio.Streambuf.{getline, consume, getline_lem}
use learn_asio.Chat.Steps.{Chats, end_read}
use learn_asio.Chat.Broadcast.{
  copies, post_times, SameButOutbox, post_times-SameButOutbox, post-messages, heap-broadcast,
  broadcast-SameButHeap, SameButHeap,
}
use learn_asio.Chat.Running.{Chats-IsChatting}

pub post_once :
    (n : ℕ) (msg : Bytes) (s : Session)
    → n ≤ 1
    → (post_times n msg s).outbox.messages ≡ s.outbox.messages ++ (if n == 0 then [] else msg ∷ [])
post_once zero msg s h = sym (append-nil s.outbox.messages)
post_once (suc zero) msg s h = post-messages msg s
post_once (suc (suc n)) msg s h = absurd (omega (arith, h))

-- A session stands in the vector at most once.
copies_once : (w : ChatServer) (q : ℕ) → Chats new_chat w → copies q w.sessions ≤ 1
copies_once w q r = let v = Chats-IsChatting q r in ground (arith, v.held)

-- In every state that the chat reaches, a broadcast appends its message, once, to the queue of
-- exactly the sessions in the vector, and changes nothing else but which writes are under way.
broadcast_reaches :
    {w : ChatServer} (msg : Bytes) (q : ℕ)
    → Chats new_chat w
    → let w' = broadcast msg w in
      ((w'.heap q).outbox.messages
        ≡ (w.heap q).outbox.messages ++ (if copies q w.sessions == 0 then [] else msg ∷ []))
      × SameButOutbox (w.heap q) (w'.heap q)
      × SameButHeap w w'
broadcast_reaches {w} msg q r =
    let n = copies q w.sessions in
    (
      rw (heap-broadcast msg w q) (post_once n msg (w.heap q) (copies_once w q r)),
      rw (heap-broadcast msg w q) (post_times-SameButOutbox n msg (w.heap q)),
      broadcast-SameButHeap msg w,
    )

post_at-messages :
    (msg : Bytes) (p : ℕ) (w : ChatServer) (q : ℕ)
    → ((post_at msg p w).heap q).outbox.messages
      ≡ (w.heap q).outbox.messages ++ (if q == p then msg ∷ [] else [])
post_at-messages msg p w q =
    ground (arith, ==_iff q p, post-messages msg (w.heap q), append-nil (w.heap q).outbox.messages)

post_at-buffer :
    (msg : Bytes) (p : ℕ) (w : ChatServer) → ((post_at msg p w).heap p).buffer ≡ (w.heap p).buffer
unfolding post
post_at-buffer msg p w = ground arith

-- The state once the line was taken out of the buffer of `p`, and then what follows is consumed.
abbrev taken : ℕ → Bytes → ChatServer → ChatServer
taken p left w = store p (record (w.heap p) { buffer = left }) w

taken-messages :
    (p : ℕ) (left : Bytes) (w : ChatServer) (q : ℕ)
    → ((taken p left w).heap q).outbox.messages ≡ (w.heap q).outbox.messages
taken-messages p left w q = ground (arith, ==_iff q p)

taken-buffer : (p : ℕ) (left : Bytes) (w : ChatServer) → ((taken p left w).heap p).buffer ≡ left
taken-buffer p left w = ground arith

on_read_line :
    (p n : ℕ) (line rest : Bytes) (w : ChatServer)
    → getline (w.heap p).buffer ≡ (line, rest)
    → on_read false n p w
      ≡ post_at line p (broadcast ((w.heap p).name ++ line) (taken p (consume n rest) w))
unfolding on_read take_line
on_read_line p n line rest w got = rw got refl

-- The messages that a line read by `p` adds to the queue of `q`.
abbrev pub echoes : ChatServer → ℕ → ℕ → Bytes → List Bytes
echoes w p q line =
    (if copies q w.sessions == 0 then [] else ((w.heap p).name ++ line) ∷ [])
    ++ (if q == p then line ∷ [] else [])

on_read_at :
    (w : ChatServer) (p q : ℕ) (line rest : Bytes)
    → copies q w.sessions ≤ 1
    → (w.heap p).buffer ≡ line ++ 10 ∷ rest
    → lacks 10 line ≡ true
    → let w' = on_read false (suc (length line)) p w in
      ((w'.heap q).outbox.messages ≡ (w.heap q).outbox.messages ++ echoes w p q line)
      × ((w'.heap p).buffer ≡ consume (suc (length line)) rest)
on_read_at w p q line rest once has first =
    let got : getline (w.heap p).buffer ≡ (line, rest) =
      ap getline has ∙ getline_lem line rest first in
    let n = suc (length line) in
    let msg = (w.heap p).name ++ line in
    let w1 = taken p (consume n rest) w in
    let told = broadcast msg w1 in
    let k = copies q w.sessions in
    rw (on_read_line p n line rest w got) (
      post_at-messages line p told q
          ∙ ap (λ ms. ms ++ (if q == p then line ∷ [] else []))
              (ap (λ x. x.outbox.messages) (heap-broadcast msg w1 q)
                ∙ post_once k msg (w1.heap q) once
                ∙ ap (λ ms. ms ++ (if k == 0 then [] else msg ∷ []))
                    (taken-messages p (consume n rest) w q))
          ∙ append_assoc (w.heap q).outbox.messages (if k == 0 then [] else msg ∷ [])
              (if q == p then line ∷ [] else []),
      post_at-buffer line p told
          ∙ ap (λ x. x.buffer) (heap-broadcast msg w1 p)
          ∙ (post_times-SameButOutbox (copies p w.sessions) msg (w1.heap p)).1
          ∙ taken-buffer p (consume n rest) w,
    )

end_read-messages :
    (n : ℕ) (arrived : Bytes) (p : ℕ) (w : ChatServer) (q : ℕ)
    → ((end_read n arrived p w).heap q).outbox.messages ≡ (w.heap q).outbox.messages
end_read-messages n arrived p w q = ground (arith, ==_iff q p)

end_read-read :
    (n : ℕ) (arrived : Bytes) (p : ℕ) (w : ChatServer)
    → (((end_read n arrived p w).heap p).buffer ≡ (w.heap p).buffer ++ arrived)
      × (((end_read n arrived p w).heap p).name ≡ (w.heap p).name)
end_read-read n arrived p w = ground arith

-- When a session reads a line, its name and the line are appended to the queue of every session in
-- the vector, and to its own the line once more; from its buffer the line is removed, and then,
-- out of what follows the line, as many bytes again.
pub on_read_lem :
    {w : ChatServer} (n p q : ℕ) (arrived line rest : Bytes)
    → Chats new_chat w
    → (w.heap p).reading ≡ suc n
    → (w.heap p).buffer ++ arrived ≡ line ++ 10 ∷ rest
    → lacks 10 line ≡ true
    → let w' = on_read false (suc (length line)) p (end_read n arrived p w) in
      ((w'.heap q).outbox.messages ≡ (w.heap q).outbox.messages ++ echoes w p q line)
      × ((w'.heap p).buffer ≡ consume (suc (length line)) rest)
on_read_lem {w} n p q arrived line rest r busy has first =
    let w1 = end_read n arrived p w in
    let same = end_read-read n arrived p w in
    let done = on_read_at w1 p q line rest (copies_once w q r) (same.0 ∙ has) first in
    (
      done.0
          ∙ ap (λ ms. ms ++ echoes w1 p q line) (end_read-messages n arrived p w q)
          ∙ ap
              (λ name.
                (w.heap q).outbox.messages
                ++ ((if copies q w.sessions == 0 then [] else (name ++ line) ∷ [])
                    ++ (if q == p then line ∷ [] else [])))
              same.1,
      done.1,
    )
