-- ===== src/Chat/Room.antt =====
-- The chat of tutorial/301.chat_server.cpp as a room with one log: what a run of the server says, to
-- whom, and what a member of such a room hears.
use learn_asio.Base.{
  ℕ, Bool, true, false, not, ◌||◌, Option, none, some, List, [], ◌∷◌, ◌++◌, Bytes, codes, ◌==◌,
  if◌then◌else◌,
}
use learn_asio.Chat.{ChatServer, new_chat, welcome}
use learn_asio.Chat.Steps.{ChatStep, Chats}
use learn_asio.Chat.Broadcast.{copies}

-- What stands in the log: a message to everyone who is in the room, one to a single session, and
-- that a session enters the room.
pub data Entry : Type 0 where
  to_all : Bytes → Entry
  to_one : ℕ → Bytes → Entry
  entered : ℕ → Entry

-- What `q` hears of a log, if it is in the room at first or not.
unfoldable pub heard : ℕ → Bool → List Entry → List Bytes
heard q inside [] = []
heard q inside (Entry.to_all m ∷ es) =
    let rest = heard q inside es in if inside then m ∷ rest else rest
heard q inside (Entry.to_one p m ∷ es) =
    let rest = heard q inside es in if q == p then m ∷ rest else rest
heard q inside (Entry.entered p ∷ es) = heard q (inside || q == p) es

-- Whether `q` is in the room after a log.
unfoldable pub is_inside : ℕ → Bool → List Entry → Bool
is_inside q inside [] = inside
is_inside q inside (Entry.to_all m ∷ es) = is_inside q inside es
is_inside q inside (Entry.to_one p m ∷ es) = is_inside q inside es
is_inside q inside (Entry.entered p ∷ es) = is_inside q (inside || q == p) es

-- The entries of an accept that ended; `name` is the name of its session.
unfoldable pub admission : Bool → Option Bytes → Option Bytes → ℕ → Bytes → List Entry
admission true joined endpoint p name = Entry.to_all (name ++ codes " has left the chat") ∷ []
admission false none endpoint p name = []
admission false (some joined) none p name = []
admission false (some joined) (some endpoint) p name =
    Entry.to_all (joined ++ codes " joined" ++ 10 ∷ [])
    ∷ Entry.to_one p welcome
    ∷ Entry.entered p
    ∷ []

-- The entries of one step.
unfoldable pub said : {w w' : ChatServer} → ChatStep w w' → List Entry
unfolding admission
said {w} (ChatStep.accepted xs ys p error joined endpoint split e) =
    admission error joined endpoint p (w.heap p).name
said {w} (ChatStep.read_line p n arrived line rest busy has first e) =
    Entry.to_all ((w.heap p).name ++ line) ∷ Entry.to_one p line ∷ []
said (ChatStep.read_failed p n k arrived busy e) = []
said (ChatStep.wrote p xs ys m error split e) = []

-- The messages that one step has written to the socket of `q`.
unfoldable pub wrote_to : {w w' : ChatServer} → ℕ → ChatStep w w' → List Bytes
wrote_to q (ChatStep.accepted xs ys p error joined endpoint split e) = []
wrote_to q (ChatStep.read_line p n arrived line rest busy has first e) = []
wrote_to q (ChatStep.read_failed p n k arrived busy e) = []
wrote_to q (ChatStep.wrote p xs ys m true split e) = []
wrote_to q (ChatStep.wrote p xs ys m false split e) = if q == p then m ∷ [] else []

-- The log of a run of the server, and all that it wrote to the socket of `q`.
unfoldable pub log : {w : ChatServer} → Chats new_chat w → List Entry
unfolding said
log Chats.here = []
log (Chats.next r s) = log r ++ said s

unfoldable pub written : {w : ChatServer} → ℕ → Chats new_chat w → List Bytes
unfolding wrote_to
written q Chats.here = []
written q (Chats.next r s) = written q r ++ wrote_to q s

-- Whether a session stands in the vector of the server.
abbrev pub is_member : ℕ → ChatServer → Bool
is_member q w = not (copies q w.sessions == 0)
