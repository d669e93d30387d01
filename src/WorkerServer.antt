-- ===== src/WorkerServer.antt =====
-- The server of tutorial/201.async_tcp_server.cpp: the class worker, of which each client has one,
-- and the class server.
pub mod Reads
use learn_asio.Base.{
  ℕ, suc, ◌≡◌, Bool, true, false, Option, none, some, List, [], ◌∷◌, ◌++◌, Bytes, if◌then◌else◌,
}

-- The accepts under way, the workers whose read is under way, those whose socket was closed after an
-- error, and what do_write printed. A worker lives as long as the handler that holds it.
pub record Server : Type 0 where
  pub accepts : ℕ
  pub reads : List ℕ
  pub closed : List ℕ
  pub printed : List Bytes

-- worker::do_read
unfoldable pub do_read : ℕ → Server → Server
do_read p s = record s { reads = s.reads ++ p ∷ [] }

-- worker::start; remote_endpoint may throw, and main has no try.
unfoldable pub start : Bool → ℕ → Server → Option Server
unfolding do_read
start throws p s = if throws then none else some (do_read p s)

-- worker::do_write, which prints what was read
unfoldable pub do_write : Bytes → Server → Server
do_write text s = record s { printed = s.printed ++ text ∷ [] }

-- The handler of a read by the worker `p`: the text, or `none` if there is an error.
unfoldable pub on_read : Option Bytes → ℕ → Server → Server
unfolding do_write
on_read (some text) p s = do_write text s
on_read none p s = record s { closed = s.closed ++ p ∷ [] }

-- server::do_accept
unfoldable pub do_accept : Server → Server
do_accept s = record s { accepts = suc s.accepts }

-- The handler of an accept with the worker `p`
unfoldable pub on_accept : Bool → Bool → ℕ → Server → Option Server
unfolding do_accept start
on_accept failed throws p s = if failed then some s else start throws p (do_accept s)

-- server::run
unfoldable pub new_server : Server
unfolding do_accept
new_server = do_accept (record { accepts = 0; reads = []; closed = []; printed = [] })

-- The runs of io_context::run without an exception: the workers that got a client, the reads that
-- have ended, with what they brought, each the last one last, and the accepts that failed.
pub data Serves : List ℕ → List (ℕ × Option Bytes) → ℕ → Server → Type 0 where
  here : Serves [] [] 0 new_server
  accepted :
      {ps : List ℕ} {rs : List (ℕ × Option Bytes)} {fs : ℕ} {s s' : Server} (p n : ℕ)
      (throws : Bool)
      → Serves ps rs fs s
      → s.accepts ≡ suc n
      → on_accept false throws p (record s { accepts = n }) ≡ some s'
      → Serves (ps ++ p ∷ []) rs fs s'
  refused :
      {ps : List ℕ} {rs : List (ℕ × Option Bytes)} {fs : ℕ} {s s' : Server} (p n : ℕ)
      (throws : Bool)
      → Serves ps rs fs s
      → s.accepts ≡ suc n
      → on_accept true throws p (record s { accepts = n }) ≡ some s'
      → Serves ps rs (suc fs) s'
  read :
      {ps : List ℕ} {rs : List (ℕ × Option Bytes)} {fs : ℕ} {s : Server} (xs ys : List ℕ) (p : ℕ)
      (got : Option Bytes)
      → Serves ps rs fs s
      → s.reads ≡ xs ++ p ∷ ys
      → Serves ps (rs ++ (p, got) ∷ []) fs (on_read got p (record s { reads = xs ++ ys }))
