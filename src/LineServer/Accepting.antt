-- ===== src/LineServer/Accepting.antt =====
-- class server of tutorial/202.async_tcp_server_streambuf.cpp, which starts the sessions. What the
-- sessions do after that does not touch it.
use learn_asio.Base.{
  ℕ, suc, ◌+◌, ◌≡◌, refl, Bool, true, false, Option, none, some, List, [], ◌∷◌, ◌++◌, arith, length,
  length-append, if◌then◌else◌,
}
use learn_asio.LineServer.{LineSession, started}

-- The accepts under way, and the sessions as they were started.
pub record LineServer : Type 0 where
  pub accepts : ℕ
  pub sessions : List LineSession

-- server::accept
unfoldable pub accept : LineServer → LineServer
accept w = record w { accepts = suc w.accepts }

-- The handler of an accept; remote_endpoint may throw, and nothing catches that.
unfoldable pub on_accept : Bool → Bool → LineServer → Option LineServer
unfolding accept
on_accept failed throws w =
    if failed
    then some w
    else if throws
    then none
    else some (accept (record w { sessions = w.sessions ++ started ∷ [] }))

-- server::run
unfoldable pub new_server : LineServer
unfolding accept
new_server = accept (record { accepts = 0; sessions = [] })

-- How many clients were accepted, and how many accepts failed, without an exception.
pub data Accepts : ℕ → ℕ → LineServer → Type 0 where
  here : Accepts 0 0 new_server
  accepted :
      {k fs : ℕ} {w w' : LineServer} (n : ℕ) (throws : Bool)
      → Accepts k fs w
      → w.accepts ≡ suc n
      → on_accept false throws (record w { accepts = n }) ≡ some w'
      → Accepts (suc k) fs w'
  refused :
      {k fs : ℕ} {w w' : LineServer} (n : ℕ) (throws : Bool)
      → Accepts k fs w
      → w.accepts ≡ suc n
      → on_accept true throws (record w { accepts = n }) ≡ some w'
      → Accepts k (suc fs) w'

accepted_lem :
    (throws : Bool) (w w' : LineServer)
    → on_accept false throws w ≡ some w'
    → (w'.accepts ≡ suc w.accepts) × (w'.sessions ≡ w.sessions ++ started ∷ [])
unfolding on_accept accept
accepted_lem throws w w' e = ground (arith, e)

refused_lem : (throws : Bool) (w w' : LineServer) → on_accept true throws w ≡ some w' → w' ≡ w
unfolding on_accept
refused_lem throws w w' e = ground (arith, e)

-- An accept is under way until one has failed, and none after that; every accepted client has its
-- session.
pub accepts_until_error :
    {k fs : ℕ} {w : LineServer} → Accepts k fs w → (w.accepts + fs ≡ 1) × (length w.sessions ≡ k)
unfolding new_server accept
accepts_until_error Accepts.here = (refl, refl)
accepts_until_error (Accepts.accepted {w = w} {w' = w'} n throws r one e) =
    let (accepting, sessions) = accepts_until_error r in
    let (more, joined) = accepted_lem throws (record w { accepts = n }) w' e in
    (
      ground (arith, more, one, accepting),
      ground (arith, joined, sessions, length-append w.sessions (started ∷ [])),
    )
accepts_until_error (Accepts.refused {w = w} {w' = w'} n throws r one e) =
    let (accepting, sessions) = accepts_until_error r in
    let same = refused_lem throws (record w { accepts = n }) w' e in
    (ground (arith, same, one, accepting), ground (arith, same, sessions))
