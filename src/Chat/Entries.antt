-- ===== src/Chat/Entries.antt =====
-- What a broadcast and an accept of tutorial/301.chat_server.cpp put into the log, and what is
-- heard of it.
use learn_asio.Base.{
  ℕ, ◌≤◌, ◌<◌, ◌≡◌, refl, sym, ap, ◌∙◌, Bool, false, ◌||◌, some, List, [], ◌∷◌, ◌++◌, append-nil,
  arith, Bytes, codes, ◌==◌, ==_iff, if◌then◌else◌,
}
use learn_asio.Chat.{
  ChatServer, new_session, update, post, broadcast, join, new_chat, start_session, welcome, accept,
}
use learn_asio.Chat.Broadcast.{copies, post-messages, heap-broadcast, broadcast-SameButHeap}
use learn_asio.Chat.Invariant.{IsChatting, copies-append, update-cases}
use learn_asio.Chat.Running.{AllChatting, IsHeld}
use learn_asio.Chat.Effects.{post_once}
use learn_asio.Chat.Room.{Entry, heard, is_inside, admission, is_member}

pub heard-append :
    (q : ℕ) (inside : Bool) (es fs : List Entry)
    → heard q inside (es ++ fs) ≡ heard q inside es ++ heard q (is_inside q inside es) fs
unfolding heard is_inside
heard-append q inside [] fs = refl
heard-append q inside (Entry.to_all m ∷ es) fs = ground (arith, heard-append q inside es fs)
heard-append q inside (Entry.to_one p m ∷ es) fs = ground (arith, heard-append q inside es fs)
heard-append q inside (Entry.entered p ∷ es) fs = heard-append q (inside || q == p) es fs

pub is_inside-append :
    (q : ℕ) (inside : Bool) (es fs : List Entry)
    → is_inside q inside (es ++ fs) ≡ is_inside q (is_inside q inside es) fs
unfolding is_inside
is_inside-append q inside [] fs = refl
is_inside-append q inside (Entry.to_all m ∷ es) fs = is_inside-append q inside es fs
is_inside-append q inside (Entry.to_one p m ∷ es) fs = is_inside-append q inside es fs
is_inside-append q inside (Entry.entered p ∷ es) fs = is_inside-append q (inside || q == p) es fs

-- One message to everyone.
pub broadcast-messages :
    (msg : Bytes) (q : ℕ) (w : ChatServer)
    → copies q w.sessions ≤ 1
    → ((broadcast msg w).heap q).outbox.messages
      ≡ (w.heap q).outbox.messages ++ heard q (is_member q w) (Entry.to_all msg ∷ [])
unfolding heard
broadcast-messages msg q w once =
    rw (heap-broadcast msg w q)
      (post_once (copies q w.sessions) msg (w.heap q) once ∙ ground (arith))

-- What the session that joins is given, and nobody else.
abbrev pub welcomes : ℕ → ℕ → List Bytes
welcomes q p = if q == p then welcome ∷ [] else []

pub heard-admission :
    (q p : ℕ) (inside : Bool) (joined endpoint name : Bytes)
    → heard q inside (admission false (some joined) (some endpoint) p name)
      ≡ heard q inside (Entry.to_all (joined ++ codes " joined" ++ 10 ∷ []) ∷ []) ++ welcomes q p
unfolding heard admission
heard-admission q p inside joined endpoint name = ground arith

-- A session that was not allocated yet hears nothing.
next_silent :
    (w : ChatServer) (p q : ℕ) (m : Bytes)
    → p < w.next
    → q ≡ w.next
    → IsChatting w q
    → []
      ≡ ((w.heap q).outbox.messages ++ heard q (is_member q w) (Entry.to_all m ∷ []))
        ++ welcomes q p
unfolding heard
next_silent w p q m below e v =
    let out : copies q w.sessions ≡ 0 = ground (arith, v.held, e) in
    rw (v.blank out, out) (ground (arith, ==_iff q p, e, below))

-- At first every session is new.
pub heap-new_chat : (q : ℕ) → (new_chat.heap q) ≡ new_session
unfolding new_chat
heap-new_chat q = ground arith

pub join-messages :
    (joined endpoint : Bytes) (p q : ℕ) (w : ChatServer)
    → IsHeld p w
    → AllChatting w
    → ((join joined endpoint p w).heap q).outbox.messages
      ≡ ((w.heap q).outbox.messages
          ++ heard q (is_member q w) (Entry.to_all (joined ++ codes " joined" ++ 10 ∷ []) ∷ []))
        ++ welcomes q p
unfolding join accept start_session
join-messages joined endpoint p q w held v =
    let msg = joined ++ codes " joined" ++ 10 ∷ [] in
    let told = broadcast msg w in
    let same = broadcast-SameButHeap msg w in
    let at_told = broadcast-messages msg q w (ground (arith, (v q).held)) in
    let s = start_session endpoint (post welcome (told.heap p)) in
    let all = (w.heap q).outbox.messages ++ heard q (is_member q w) (Entry.to_all msg ∷ []) in
    update-cases (λ x. x.outbox.messages ≡ all ++ welcomes q p) (update told.heap p s) told.next
      new_session q (λ e. next_silent w p q msg (held.1) (e ∙ same.0) (v q))
      λ away.
        update-cases (λ x. x.outbox.messages ≡ all ++ welcomes q p) told.heap p s q
          (λ e.
            post-messages welcome (told.heap p)
            ∙ ap (λ x. (told.heap x).outbox.messages ++ welcome ∷ []) (sym e)
            ∙ ap (λ l. l ++ welcome ∷ []) at_told
            ∙ ap (λ ms. all ++ ms) (ground (arith, e, ==_iff q p)))
          λ other. at_told ∙ rw other (sym (append-nil all))

pub join-is_member :
    (joined endpoint : Bytes) (p q : ℕ) (w : ChatServer)
    → is_member q (join joined endpoint p w) ≡ (is_member q w || q == p)
unfolding join accept
join-is_member joined endpoint p q w =
    let told = broadcast (joined ++ codes " joined" ++ 10 ∷ []) w in
    let same = broadcast-SameButHeap (joined ++ codes " joined" ++ 10 ∷ []) w in
    ground (arith, copies-append q told.sessions (p ∷ []), ap (copies q) same.1)
