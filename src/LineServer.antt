-- ===== src/LineServer.antt =====
-- The sessions of tutorial/202.async_tcp_server_streambuf.cpp (class session), each of which sends
-- every line back. They do not touch each other.
pub mod Order
pub mod Accepting
use learn_asio.Base.{
  ℕ, suc, ◌≡◌, Bool, true, false, ◌&&◌, Option, none, some, List, [], ◌∷◌, ◌++◌, arith, Bytes,
  length, lacks, if◌then◌else◌,
}
use learn_asio.Outbox.{Outbox, empty_outbox, push, on_written}
use learn_asio.Streambuf.{getline, consume}

-- class session. messages_ is in the outbox; `reading` counts the calls of async_read_until that
-- are under way.
pub record LineSession : Type 0 where
  pub is_open : Bool
  pub buffer : Bytes
  pub outbox : Outbox
  pub reading : ℕ

-- session::read
unfoldable pub read : LineSession → LineSession
read s = record s { reading = suc s.reading }

-- session::session and session::start
unfoldable pub started : LineSession
unfolding read
started = read (record { is_open = true; buffer = []; outbox = empty_outbox; reading = 0 })

-- session::on_error. name() asks an open socket for its remote_endpoint, which may throw; then no
-- state is left, since nothing catches the exception.
unfoldable pub on_error : Bool → LineSession → Option LineSession
on_error throws s = if s.is_open && throws then none else some (record s { is_open = false })

-- session::on_read past its test of the error code, once the line was printed with its name()
unfoldable pub echo : ℕ → LineSession → LineSession
unfolding getline consume push read
echo bytes_transferred s =
    let (line, rest) = getline s.buffer in
    read (record s { buffer = consume bytes_transferred rest; outbox = push line s.outbox })

-- session::on_read
unfoldable pub on_read : Bool → Bool → ℕ → LineSession → Option LineSession
unfolding on_error echo
on_read true throws bytes_transferred s = on_error throws s
on_read false throws bytes_transferred s =
    if s.is_open && throws then none else some (echo bytes_transferred s)

-- session::on_write
unfoldable pub on_write : Bool → Bool → LineSession → Option LineSession
unfolding on_error on_written
on_write true throws s = on_error throws s
on_write false throws s = some (record s { outbox = on_written s.outbox })

-- One read has ended, after the bytes `arrived` were put into the buffer.
abbrev pub end_read : ℕ → Bytes → LineSession → LineSession
end_read n arrived s = record s { buffer = s.buffer ++ arrived; reading = n }

-- One write has ended; those in `rest` are still under way.
abbrev pub end_write : List Bytes → LineSession → LineSession
end_write rest s = record s { outbox = record s.outbox { writing = rest } }

-- A session while io_context::run runs: one operation that is under way ends, and its handler runs
-- to its end. The lists are the lines that were read and the messages whose write ended well,
-- first one first.
pub data Echoes : List Bytes → List Bytes → LineSession → Type 0 where
  here : Echoes [] [] started
  -- async_read_until gives the length of the first line in the buffer, its end included.
  read_line :
      {ls ws : List Bytes} {s s' : LineSession} (n : ℕ) (arrived line rest : Bytes) (throws : Bool)
      → Echoes ls ws s
      → s.reading ≡ suc n
      → s.buffer ++ arrived ≡ line ++ 10 ∷ rest
      → lacks 10 line ≡ true
      → on_read false throws (suc (length line)) (end_read n arrived s) ≡ some s'
      → Echoes (ls ++ line ∷ []) ws s'
  read_failed :
      {ls ws : List Bytes} {s s' : LineSession} (n k : ℕ) (arrived : Bytes) (throws : Bool)
      → Echoes ls ws s
      → s.reading ≡ suc n
      → on_read true throws k (end_read n arrived s) ≡ some s'
      → Echoes ls ws s'
  wrote :
      {ls ws : List Bytes} {s s' : LineSession} (xs ys : List Bytes) (m : Bytes) (throws : Bool)
      → Echoes ls ws s
      → s.outbox.writing ≡ xs ++ m ∷ ys
      → on_write false throws (end_write (xs ++ ys) s) ≡ some s'
      → Echoes ls (ws ++ m ∷ []) s'
  write_failed :
      {ls ws : List Bytes} {s s' : LineSession} (xs ys : List Bytes) (m : Bytes) (throws : Bool)
      → Echoes ls ws s
      → s.outbox.writing ≡ xs ++ m ∷ ys
      → on_write true throws (end_write (xs ++ ys) s) ≡ some s'
      → Echoes ls ws s'

-- What a read without an error and without an exception leaves.
pub on_read-echo :
    (throws : Bool) (k : ℕ) (s s' : LineSession)
    → on_read false throws k s ≡ some s'
    → s' ≡ echo k s
unfolding on_read
on_read-echo throws k s s' e = ground (arith, e)

pub on_error-outbox :
    (throws : Bool) (s s' : LineSession)
    → on_error throws s ≡ some s'
    → (s'.outbox ≡ s.outbox) × (s'.is_open ≡ false)
unfolding on_error
on_error-outbox throws s s' e = ground (arith, e)
