-- ===== src/Chat/Ends.antt =====
-- How reading and accepting end in the chat server of tutorial/301.chat_server.cpp.
use learn_asio.Base.{
  ℕ, suc, ◌≤◌, ◌≡◌, ◌≢◌, refl, sym, ap, subst, ◌∙◌, Bool, true, false, Option, none, some, List, [],
  ◌∷◌, ◌++◌, arith, Bytes, codes, length, length-append,
}
use learn_asio.Chat.{ChatServer, broadcast, on_read, on_accept, join, new_chat, destroy, accept}
use learn_asio.Chat.Steps.{ChatStep, Chats, end_read}
use learn_asio.Chat.Broadcast.{copies, broadcast-SameButHeap}
use learn_asio.Chat.Running.{AllChatting, Chats-IsChatting, end_read-IsChatting, on_read-IsChatting}
use learn_asio.Chat.Silent.{on_read-Frame, Chats-IsSilent}

-- Once a read of a session has ended, well or badly, no read of that session is ever under way
-- again, whatever is accepted, read and written after that: of each session the server takes one
-- line at most.
pub read_once :
    {w w' : ChatServer} (error : Bool) (k n p : ℕ) (arrived : Bytes)
    → Chats new_chat w
    → (w.heap p).reading ≡ suc n
    → Chats (on_read error k p (end_read n arrived p w)) w'
    → (w'.heap p).reading ≡ 0
read_once {w} error k n p arrived r busy after =
    let v : AllChatting w = λ q. Chats-IsChatting q r in
    let (at_read, joined) = end_read-IsChatting n p arrived w busy v in
    let f = on_read-Frame error k p (end_read n arrived p w) p in
    (Chats-IsSilent p after (on_read-IsChatting error k p (end_read n arrived p w) joined at_read) (
      f.1 ∙ ground (arith, busy, (v p).reads, (v p).held),
      omega (arith, ap (copies p) (f.0.1), joined),
    )).1.0

-- No accept is under way.
abbrev IsClosed : List ℕ → ChatServer → Type 0
IsClosed ps w = (w.accepting ≡ []) × (w.sessions ≡ ps)

no_accept : (xs ys : List ℕ) (p : ℕ) → [] ≢ xs ++ p ∷ ys
no_accept [] ys p e = absurd (ground (arith, e))
no_accept (x ∷ xs) ys p e = absurd (ground (arith, e))

ChatStep-IsClosed :
    (ps : List ℕ) {w w' : ChatServer} → ChatStep w w' → IsClosed ps w → IsClosed ps w'
ChatStep-IsClosed ps (ChatStep.accepted xs ys q error joined endpoint split e) c =
    absurd (no_accept xs ys q (sym (c.0) ∙ split))
ChatStep-IsClosed ps {w} (ChatStep.read_line q n arrived line rest busy has first e) c =
    let (same, _) = on_read-Frame false (suc (length line)) q (end_read n arrived q w) q in
    rw e (same.2 ∙ c.0, same.1 ∙ c.1)
ChatStep-IsClosed ps {w} (ChatStep.read_failed q n k arrived busy e) c =
    let (same, _) = on_read-Frame true k q (end_read n arrived q w) q in
    rw e (same.2 ∙ c.0, same.1 ∙ c.1)
ChatStep-IsClosed ps (ChatStep.wrote q xs ys m error split e) c = rw e c

Chats-IsClosed : (ps : List ℕ) {w w' : ChatServer} → Chats w w' → IsClosed ps w → IsClosed ps w'
Chats-IsClosed ps Chats.here c = c
Chats-IsClosed ps (Chats.next r t) c = ChatStep-IsClosed ps t (Chats-IsClosed ps r c)

lone : (xs ys : List ℕ) (p : ℕ) → length (xs ++ p ∷ ys) ≤ 1 → xs ++ ys ≡ []
lone [] [] p h = refl
lone [] (y ∷ ys) p h = absurd (omega (arith, h))
lone (x ∷ xs) ys p h = absurd (omega (arith, h, length-append xs (p ∷ ys)))

join-accepting :
    (joined endpoint : Bytes) (p : ℕ) (w : ChatServer)
    → length (join joined endpoint p w).accepting ≡ suc (length w.accepting)
unfolding join accept
join-accepting joined endpoint p w =
    let msg = joined ++ codes " joined" ++ 10 ∷ [] in
    ap (λ ps. suc (length ps)) ((broadcast-SameButHeap msg w).2)

accepted-accepting :
    (error : Bool) (joined endpoint : Option Bytes) (q : ℕ) (w w' : ChatServer)
    → on_accept error joined endpoint q w ≡ some w'
    → length w'.accepting ≤ suc (length w.accepting)
unfolding on_accept destroy
accepted-accepting true joined endpoint q w w' e =
    let msg = (w.heap q).name ++ codes " has left the chat" in
    let left : broadcast msg w ≡ w' = ground (arith, e) in
    subst (λ u. length u.accepting ≤ suc (length w.accepting)) left
      (omega (arith, ap length ((broadcast-SameButHeap msg w).2)))
accepted-accepting false none endpoint q w w' e = absurd (ground (arith, e))
accepted-accepting false (some joined) none q w w' e = absurd (ground (arith, e))
accepted-accepting false (some joined) (some endpoint) q w w' e =
    let left : join joined endpoint q w ≡ w' = ground (arith, e) in
    subst (λ u. length u.accepting ≤ suc (length w.accepting)) left
      (omega (arith, join-accepting joined endpoint q w))

one_accept : {w : ChatServer} → Chats new_chat w → length w.accepting ≤ 1
unfolding new_chat accept
one_accept Chats.here = omega arith
one_accept {w = w'}
      (Chats.next {u = w} r (ChatStep.accepted xs ys q error joined endpoint split e)) =
    let none_left = lone xs ys q (rw (sym split) (one_accept r)) in
    omega (
      arith,
      ap length none_left,
      accepted-accepting error joined endpoint q (record w { accepting = xs ++ ys }) w' e,
    )
one_accept (Chats.next {u = w} r (ChatStep.read_line q n arrived line rest busy has first e)) =
    let (same, _) = on_read-Frame false (suc (length line)) q (end_read n arrived q w) q in
    rw (e, same.2) (one_accept r)
one_accept (Chats.next {u = w} r (ChatStep.read_failed q n k arrived busy e)) =
    let (same, _) = on_read-Frame true k q (end_read n arrived q w) q in
    rw (e, same.2) (one_accept r)
one_accept (Chats.next r (ChatStep.wrote q xs ys m error split e)) = rw e (one_accept r)

-- Once an accept has failed, no accept is ever under way again, and the sessions in the vector stay
-- the same, whatever is read and written after that: nobody joins any more, and nobody leaves.
pub failed_accept_ends :
    {w w1 w' : ChatServer} (xs ys : List ℕ) (p : ℕ) (joined endpoint : Option Bytes)
    → Chats new_chat w
    → w.accepting ≡ xs ++ p ∷ ys
    → on_accept true joined endpoint p (record w { accepting = xs ++ ys }) ≡ some w1
    → Chats w1 w'
    → (w'.accepting ≡ []) × (w'.sessions ≡ w.sessions)
unfolding on_accept destroy
failed_accept_ends {w} {w1} xs ys p joined endpoint r split e after =
    let w0 = record w { accepting = xs ++ ys } in
    let msg = (w.heap p).name ++ codes " has left the chat" in
    let left : broadcast msg w0 ≡ w1 = ground (arith, e) in
    let same = broadcast-SameButHeap msg w0 in
    Chats-IsClosed w.sessions after (
      subst (IsClosed w.sessions) left
        (same.2 ∙ lone xs ys p (rw (sym split) (one_accept r)), same.1))
