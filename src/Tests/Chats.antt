-- ===== src/Tests/Chats.antt =====
-- The theorems on the chat server and on its queues at a state with one member.
use learn_asio.Base.{◌≡◌, refl, true, false, some, none, List, [], ◌∷◌, ◌++◌, Bytes, codes}
use learn_asio.Outbox.{Outbox, empty_outbox, push}
use learn_asio.Streambuf.{consume}
use learn_asio.Chat.{
  ChatServer, new_chat, join, on_accept, on_read, on_write, destroy, store, welcome,
}
use learn_asio.Chat.Steps.{Chats, ChatStep, end_read, end_write}
use learn_asio.Chat.Invariant.{IsChatting}
use learn_asio.Chat.Running.{Chats-IsChatting}
use learn_asio.Chat.Effects.{on_read_lem}
use learn_asio.Chat.Room.{heard, is_inside, is_member, log, written}
use learn_asio.Chat.Delivered.{Chats-heard}
use learn_asio.Chat.InFull.{has_failed, heard_in_full}
use learn_asio.Chat.Ends.{read_once, failed_accept_ends}

-- Two messages are pushed, and the first is written.
abbrev two_pushed : Outbox
two_pushed = push (2 ∷ []) (push (1 ∷ []) empty_outbox)

abbrev no_messages : List Bytes
no_messages = []

abbrev client : Bytes
client = codes "a"

-- The first accept succeeded, and the member is 0.
abbrev one_member : ChatServer
one_member = join client client 0 (record new_chat { accepting = [] })

one_member_reached : Chats new_chat one_member
unfolding new_chat on_accept
one_member_reached =
    Chats.next Chats.here (ChatStep.accepted [] [] 0 false (some client) (some client) refl refl)

Chats-IsChatting_example : IsChatting one_member 0
Chats-IsChatting_example = Chats-IsChatting 0 one_member_reached

-- The welcome was written, and the member has said one line.
abbrev welcomed : ChatServer
welcomed = store 0 (on_write false (end_write [] (one_member.heap 0))) one_member

abbrev one_line : ChatServer
one_line = on_read false 3 0 (end_read 0 (codes "hi" ++ 10 ∷ []) 0 welcomed)

welcomed_reached : Chats new_chat welcomed
unfolding join new_chat
welcomed_reached = Chats.next one_member_reached (ChatStep.wrote 0 [] [] welcome false refl refl)

one_line_reached : Chats new_chat one_line
unfolding join new_chat on_write
one_line_reached =
    Chats.next welcomed_reached
      (ChatStep.read_line 0 0 (codes "hi" ++ 10 ∷ []) (codes "hi") [] refl refl refl refl)

heard_in_full_example : (welcome ∷ []) ≡ heard 0 false (log welcomed_reached)
unfolding welcomed_reached one_member_reached written has_failed join new_chat on_write
heard_in_full_example = heard_in_full 0 welcomed_reached refl refl

Chats-heard_example :
    (welcome ∷ (one_line.heap 0).outbox.messages ≡ welcome ∷ codes "[a]: hi" ∷ codes "hi" ∷ [])
    × (is_member 0 one_line ≡ true)
unfolding one_line_reached welcomed_reached one_member_reached log written heard is_inside join
    new_chat on_write on_read
Chats-heard_example = Chats-heard 0 one_line_reached

-- Two lines arrive at once, of three bytes each with its end; the second is lost.
on_read_lem_example :
    let two_lines = codes "hi" ++ 10 ∷ codes "yo" ++ 10 ∷ [] in
    let w' = on_read false 3 0 (end_read 0 two_lines 0 one_member) in
    ((w'.heap 0).outbox.messages
      ≡ (one_member.heap 0).outbox.messages ++ codes "[a]: hi" ∷ codes "hi" ∷ [])
    × ((w'.heap 0).buffer ≡ [])
unfolding join consume new_chat
on_read_lem_example =
    on_read_lem 0 0 0 (codes "hi" ++ 10 ∷ codes "yo" ++ 10 ∷ []) (codes "hi")
      (codes "yo" ++ 10 ∷ []) one_member_reached refl refl refl

read_once_example : ((on_read true 0 0 (end_read 0 [] 0 one_member)).heap 0).reading ≡ 0
unfolding join new_chat
read_once_example = read_once true 0 0 0 [] one_member_reached refl Chats.here

failed_accept_ends_example :
    let w' = destroy 1 (record one_member { accepting = [] }) in
    (w'.accepting ≡ []) × (w'.sessions ≡ one_member.sessions)
unfolding join on_accept new_chat
failed_accept_ends_example =
    failed_accept_ends [] [] 1 none none one_member_reached refl refl Chats.here
