-- ===== src/Chat/Silent.antt =====
-- A session of tutorial/301.chat_server.cpp whose read has ended.
use learn_asio.Base.{
  ℕ, suc, ◌≤◌, ◌<◌, ◌≡◌, refl, ap, subst, ◌∙◌, Bool, true, false, Option, none, some, List, [], ◌∷◌,
  ◌++◌, arith, Bytes, codes, length, ◌==◌, ==_iff,
}
use learn_asio.Streambuf.{getline, consume}
use learn_asio.Chat.{
  Session, ChatServer, store, post, broadcast, on_error, on_read, on_write, on_accept, join,
  take_line, destroy, accept,
}
use learn_asio.Chat.Steps.{ChatStep, Chats, end_read, end_write}
use learn_asio.Chat.Broadcast.{
  copies, SameButHeap, post_times-SameButOutbox, heap-broadcast, broadcast-SameButHeap,
}
use learn_asio.Chat.Invariant.{copies-append}
use learn_asio.Chat.Running.{AllChatting, take_accept, ChatStep-IsChatting}

broadcast-reading :
    (msg : Bytes) (w : ChatServer) (q : ℕ) → ((broadcast msg w).heap q).reading ≡ (w.heap q).reading
broadcast-reading msg w q =
    ap (λ s. s.reading) (heap-broadcast msg w q)
    ∙ (post_times-SameButOutbox (copies q w.sessions) msg (w.heap q)).3

store-reading :
    (p : ℕ) (s : Session) (w : ChatServer) (q : ℕ)
    → s.reading ≡ (w.heap p).reading
    → ((store p s w).heap q).reading ≡ (w.heap q).reading
store-reading p s w q e = ground (arith, ==_iff q p)

take_line-Frame :
    (n p : ℕ) (w : ChatServer) (q : ℕ)
    → SameButHeap w (take_line n p w) × (((take_line n p w).heap q).reading ≡ (w.heap q).reading)
unfolding take_line post
take_line-Frame n p w q =
    let s = w.heap p in
    let got = getline s.buffer in
    let rest = record s { buffer = consume n got.1 } in
    let taken = store p rest w in
    let told = broadcast (s.name ++ got.0) taken in
    (
      broadcast-SameButHeap (s.name ++ got.0) taken,
      store-reading p (post got.0 (told.heap p)) told q refl
          ∙ broadcast-reading (s.name ++ got.0) taken q
          ∙ store-reading p rest w q refl,
    )

pub on_read-Frame :
    (error : Bool) (n p : ℕ) (w : ChatServer) (q : ℕ)
    → SameButHeap w (on_read error n p w)
      × (((on_read error n p w).heap q).reading ≡ (w.heap q).reading)
unfolding on_read on_error
on_read-Frame true n p w q = ((refl, refl, refl), store-reading p (on_error (w.heap p)) w q refl)
on_read-Frame false n p w q = take_line-Frame n p w q

-- The session reads no more, and it stands in the vector.
abbrev IsSilent : ℕ → ChatServer → Type 0
IsSilent p w = ((w.heap p).reading ≡ 0) × (1 ≤ copies p w.sessions)

on_write-reading :
    (error : Bool) (rest : List Bytes) (s : Session)
    → (on_write error (end_write rest s)).reading ≡ s.reading
unfolding on_write on_error
on_write-reading true rest s = refl
on_write-reading false rest s = refl

read-IsSilent :
    (error : Bool) (k n p q : ℕ) (arrived : Bytes) (w : ChatServer)
    → (w.heap q).reading ≡ suc n
    → IsSilent p w
    → IsSilent p (on_read error k q (end_read n arrived q w))
read-IsSilent error k n p q arrived w busy s =
    let f = on_read-Frame error k q (end_read n arrived q w) p in
    (f.1 ∙ ground (arith, busy, s.0, ==_iff p q), omega (arith, ap (copies p) (f.0.1), s.1))

join-IsSilent :
    (joined endpoint : Bytes) (p q : ℕ) (w : ChatServer)
    → (p == q) ≡ false
    → p < w.next
    → IsSilent p w
    → IsSilent p (join joined endpoint q w)
unfolding join accept
join-IsSilent joined endpoint p q w other below s =
    let msg = joined ++ codes " joined" ++ 10 ∷ [] in
    let same = broadcast-SameButHeap msg w in
    (
      ground (arith, other, below, same.0, broadcast-reading msg w p, s.0),
      ground (arith, s.1, same.1, copies-append p w.sessions (q ∷ [])),
    )

accepted-IsSilent :
    (error : Bool) (joined endpoint : Option Bytes) (p q : ℕ) (w w' : ChatServer)
    → on_accept error joined endpoint q w ≡ some w'
    → (p == q) ≡ false
    → p < w.next
    → IsSilent p w
    → IsSilent p w'
unfolding on_accept destroy
accepted-IsSilent true joined endpoint p q w w' e other below s =
    let msg = (w.heap q).name ++ codes " has left the chat" in
    let left : broadcast msg w ≡ w' = ground (arith, e) in
    subst (IsSilent p) left (
      broadcast-reading msg w p ∙ s.0,
      omega (arith, ap (copies p) ((broadcast-SameButHeap msg w).1), s.1),
    )
accepted-IsSilent false none endpoint p q w w' e other below s = absurd (ground (arith, e))
accepted-IsSilent false (some joined) none p q w w' e other below s = absurd (ground (arith, e))
accepted-IsSilent false (some joined) (some endpoint) p q w w' e other below s =
    let left : join joined endpoint q w ≡ w' = ground (arith, e) in
    subst (IsSilent p) left (join-IsSilent joined endpoint p q w other below s)

ChatStep-IsSilent :
    (p : ℕ) {w w' : ChatServer} → ChatStep w w' → AllChatting w → IsSilent p w → IsSilent p w'
ChatStep-IsSilent p {w} {w'} (ChatStep.accepted xs ys q error joined endpoint split e) v s =
    let (at_w, held) = take_accept xs ys q w split v in
    accepted-IsSilent error joined endpoint p q (record w { accepting = xs ++ ys }) w' e
      (ground (arith, ==_iff p q, held.0, s.1)) (ground (arith, (v p).held, s.1)) s
ChatStep-IsSilent p {w} (ChatStep.read_line q n arrived line rest busy has first e) v s =
    rw e (read-IsSilent false (suc (length line)) n p q arrived w busy s)
ChatStep-IsSilent p {w} (ChatStep.read_failed q n k arrived busy e) v s =
    rw e (read-IsSilent true k n p q arrived w busy s)
ChatStep-IsSilent p {w} (ChatStep.wrote q xs ys m error split e) v s = rw e (
  store-reading q (on_write error (end_write (xs ++ ys) (w.heap q))) w p
        (on_write-reading error (xs ++ ys) (w.heap q))
      ∙ s.0,
  s.1,
)

pub Chats-IsSilent :
    (p : ℕ) {w w' : ChatServer}
    → Chats w w'
    → AllChatting w
    → IsSilent p w
    → AllChatting w' × IsSilent p w'
Chats-IsSilent p Chats.here v s = (v, s)
Chats-IsSilent p (Chats.next r t) v s =
    let (v', s') = Chats-IsSilent p r v s in (ChatStep-IsChatting t v', ChatStep-IsSilent p t v' s')
