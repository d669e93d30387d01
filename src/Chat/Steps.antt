-- ===== src/Chat/Steps.antt =====
-- What can happen to the chat server of tutorial/301.chat_server.cpp while io_context::run runs:
-- one operation that is under way ends, and its handler runs to its end.
use learn_asio.Base.{
  ℕ, suc, ◌≡◌, Bool, true, false, Option, some, List, ◌∷◌, ◌++◌, Bytes, length, lacks,
}
use learn_asio.Chat.{Session, ChatServer, store, on_accept, on_read, on_write}

-- One read of a session has ended, after the bytes `arrived` were put into its buffer.
abbrev pub end_read : ℕ → Bytes → ℕ → ChatServer → ChatServer
end_read n arrived p w =
    let s = w.heap p in store p (record s { buffer = s.buffer ++ arrived; reading = n }) w

-- One write of a session has ended; those in `rest` are still under way.
abbrev pub end_write : List Bytes → Session → Session
end_write rest s = record s { outbox = record s.outbox { writing = rest } }

pub data ChatStep (w w' : ChatServer) : Type 0 where
  accepted :
      (xs ys : List ℕ) (p : ℕ) (error : Bool) (joined endpoint : Option Bytes)
      → w.accepting ≡ xs ++ p ∷ ys
      → on_accept error joined endpoint p (record w { accepting = xs ++ ys }) ≡ some w'
      → ChatStep w w'
  -- async_read_until gives the length of the first line in the buffer, its end included.
  read_line :
      (p n : ℕ) (arrived line rest : Bytes)
      → (w.heap p).reading ≡ suc n
      → (w.heap p).buffer ++ arrived ≡ line ++ 10 ∷ rest
      → lacks 10 line ≡ true
      → w' ≡ on_read false (suc (length line)) p (end_read n arrived p w)
      → ChatStep w w'
  read_failed :
      (p n bytes_transferred : ℕ) (arrived : Bytes)
      → (w.heap p).reading ≡ suc n
      → w' ≡ on_read true bytes_transferred p (end_read n arrived p w)
      → ChatStep w w'
  wrote :
      (p : ℕ) (xs ys : List Bytes) (m : Bytes) (error : Bool)
      → (w.heap p).outbox.writing ≡ xs ++ m ∷ ys
      → w' ≡ store p (on_write error (end_write (xs ++ ys) (w.heap p))) w
      → ChatStep w w'

pub data Chats (w : ChatServer) : ChatServer → Type 0 where
  here : Chats w w
  next : {u v : ChatServer} → Chats w u → ChatStep u v → Chats w v
