-- ===== src/Chat/Broadcast.antt =====
-- Whom server::broadcast of tutorial/301.chat_server.cpp reaches.
use learn_asio.Base.{
  ℕ, zero, suc, ◌≡◌, refl, ◌∙◌, List, [], ◌∷◌, ◌++◌, arith, Bytes, ◌==◌, ==_iff, if◌then◌else◌,
}
use learn_asio.Outbox.{IsReady, push-IsReady, push-messages}
use learn_asio.Chat.{Session, ChatServer, post, post_at, post_each, broadcast}

-- How often the session `p` stands in a list.
abbrev pub copies : ℕ → List ℕ → ℕ
copies p [] = 0
copies p (q ∷ qs) = if p == q then suc (copies p qs) else copies p qs

abbrev pub post_times : ℕ → Bytes → Session → Session
post_times zero msg s = s
post_times (suc n) msg s = post_times n msg (post msg s)

-- Nothing of a session but its outbox.
abbrev pub SameButOutbox : Session → Session → Type 0
SameButOutbox s s' =
    (s'.is_open ≡ s.is_open)
    × (s'.buffer ≡ s.buffer)
    × (s'.name ≡ s.name)
    × (s'.reading ≡ s.reading)

post-SameButOutbox : (msg : Bytes) (s : Session) → SameButOutbox s (post msg s)
unfolding post
post-SameButOutbox msg s = (refl, refl, refl, refl)

pub post_times-SameButOutbox :
    (n : ℕ) (msg : Bytes) (s : Session) → SameButOutbox s (post_times n msg s)
post_times-SameButOutbox zero msg s = (refl, refl, refl, refl)
post_times-SameButOutbox (suc n) msg s =
    ground (arith, post_times-SameButOutbox n msg (post msg s), post-SameButOutbox msg s)

pub post-IsReady : (msg : Bytes) (s : Session) → IsReady s.outbox → IsReady (post msg s).outbox
unfolding post
post-IsReady msg s r = push-IsReady msg s.outbox r

pub post_times-IsReady :
    (n : ℕ) (msg : Bytes) (s : Session) → IsReady s.outbox → IsReady (post_times n msg s).outbox
post_times-IsReady zero msg s r = r
post_times-IsReady (suc n) msg s r = post_times-IsReady n msg (post msg s) (post-IsReady msg s r)

pub post-messages :
    (msg : Bytes) (s : Session) → (post msg s).outbox.messages ≡ s.outbox.messages ++ msg ∷ []
unfolding post
post-messages msg s = push-messages msg s.outbox

heap-post_each :
    (msg : Bytes) (ps : List ℕ) (w : ChatServer) (q : ℕ)
    → (post_each msg ps w).heap q ≡ post_times (copies q ps) msg (w.heap q)
unfolding post_each
heap-post_each msg [] w q = refl
heap-post_each msg (p ∷ ps) w q =
    heap-post_each msg ps (post_at msg p w) q ∙ ground (arith, ==_iff q p)

-- Nothing but the heap.
abbrev pub SameButHeap : ChatServer → ChatServer → Type 0
SameButHeap w w' = (w'.next ≡ w.next) × (w'.sessions ≡ w.sessions) × (w'.accepting ≡ w.accepting)

post_each-SameButHeap :
    (msg : Bytes) (ps : List ℕ) (w : ChatServer) → SameButHeap w (post_each msg ps w)
unfolding post_each
post_each-SameButHeap msg [] w = (refl, refl, refl)
post_each-SameButHeap msg (p ∷ ps) w = post_each-SameButHeap msg ps (post_at msg p w)

pub heap-broadcast :
    (msg : Bytes) (w : ChatServer) (q : ℕ)
    → (broadcast msg w).heap q ≡ post_times (copies q w.sessions) msg (w.heap q)
unfolding broadcast
heap-broadcast msg w q = heap-post_each msg w.sessions w q

pub broadcast-SameButHeap : (msg : Bytes) (w : ChatServer) → SameButHeap w (broadcast msg w)
unfolding broadcast
broadcast-SameButHeap msg w = post_each-SameButHeap msg w.sessions w
