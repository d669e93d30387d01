-- ===== src/Application.antt =====
-- class application of tutorial/110.http_client.cpp: a client that resolves a host, connects,
-- sends its request and prints what it receives.
use learn_asio.Base.{
  ℕ, ◌≡◌, refl, sym, ◌∙◌, ◌⊎◌, inl, inr, Bool, true, false, [], ◌∷◌, ◌++◌, append-nil, arith, Bytes,
  length, ltb, if◌then◌else◌,
}
use learn_asio.Streambuf.{consume}

-- The asynchronous operation that is under way.
pub data Stage : Type 0 where
  resolving connecting sending receiving idle : Stage

-- request_ never changes after the constructor; `printed` is what was written of the response.
pub record Application : Type 0 where
  pub is_open : Bool
  pub response : Bytes
  pub printed : Bytes
  pub stage : Stage

-- application::application
abbrev pub new_application : Application
new_application = record { is_open = false; response = []; printed = []; stage = resolving }

-- application::on_error
unfoldable pub on_error : Application → Application
on_error a = if a.is_open then record a { is_open = false } else a

-- application::on_resolve
unfoldable pub on_resolve : Bool → Application → Application
unfolding on_error
on_resolve error a = if error then on_error a else record a { stage = connecting }

-- application::on_connect
unfoldable pub on_connect : Bool → Application → Application
unfolding on_error
on_connect error a = if error then on_error a else record a { stage = sending }

-- application::on_write
unfoldable pub on_write : Bool → Application → Application
unfolding on_error
on_write error a = if error then on_error a else record a { stage = receiving }

-- application::on_read. Printing the streambuf through its rdbuf takes everything out of it.
unfoldable pub on_read : Bool → ℕ → Application → Application
unfolding on_error consume
on_read error bytes_transferred a =
    let shown =
      if ltb 0 bytes_transferred
      then record a { printed = a.printed ++ a.response; response = consume bytes_transferred [] }
      else a in
    if error then on_error shown else record shown { stage = receiving }

-- The states after the operation under way has ended so many times; async_connect may have opened
-- the socket. The bytes are all those that async_read has put into response_.
pub data Fetches : Bytes → Application → Type 0 where
  here : Fetches [] new_application
  resolved :
      {got : Bytes} {a : Application} (error : Bool)
      → Fetches got a
      → a.stage ≡ resolving
      → Fetches got (on_resolve error (record a { stage = idle }))
  connected :
      {got : Bytes} {a : Application} (error is_open : Bool)
      → Fetches got a
      → a.stage ≡ connecting
      → Fetches got (on_connect error (record a { stage = idle; is_open = is_open }))
  sent :
      {got : Bytes} {a : Application} (error : Bool)
      → Fetches got a
      → a.stage ≡ sending
      → Fetches got (on_write error (record a { stage = idle }))
  received :
      {got : Bytes} {a : Application} (error : Bool) (arrived : Bytes)
      → Fetches got a
      → a.stage ≡ receiving
      → Fetches (got ++ arrived) (
          on_read error
            (length arrived)
            (record a { stage = idle; response = a.response ++ arrived }))

abbrev pub is_busy : Stage → Bool
is_busy resolving = true
is_busy connecting = true
is_busy sending = true
is_busy receiving = true
is_busy idle = false

record IsFetching (got : Bytes) (a : Application) : Type 0 where
  shown : a.printed ≡ got
  left : a.response ≡ []
  ended : (a.is_open ≡ false) ⊎ (is_busy a.stage ≡ true)

-- What a handler does that leaves the data alone.
moves_on :
    (error : Bool) (next : Stage) (got : Bytes) (a : Application)
    → a.printed ≡ got
    → a.response ≡ []
    → is_busy next ≡ true
    → IsFetching got (if error then on_error a else record a { stage = next })
unfolding on_error
moves_on true next got a p r b = record {
  shown = ground (arith, p);
  left = ground (arith, r);
  ended = inl (ground arith);
}
moves_on false next got a p r b = record { shown = p; left = r; ended = inr b }

received_lem :
    (error : Bool) (arrived got : Bytes) (a : Application)
    → a.printed ≡ got
    → a.response ≡ []
    → IsFetching (got ++ arrived) (
        on_read error
          (length arrived)
          (record a { stage = idle; response = a.response ++ arrived }))
unfolding on_read consume
received_lem error [] got a p r =
    moves_on error receiving (got ++ []) (record a { stage = idle; response = a.response ++ [] })
      (p ∙ sym (append-nil got)) (append-nil a.response ∙ r) refl
received_lem error (c ∷ arrived) got a p r =
    let some_of : ltb 0 (length (c ∷ arrived)) ≡ true = ground arith in
    rw some_of (
      moves_on error receiving (got ++ c ∷ arrived)
        (record a {
          stage = idle;
          response = [];
          printed = a.printed ++ (a.response ++ c ∷ arrived);
        })
        (ground (arith, p, r)) refl refl)

Fetches-IsFetching : {got : Bytes} {a : Application} → Fetches got a → IsFetching got a
unfolding on_resolve on_connect on_write
Fetches-IsFetching Fetches.here = record { shown = refl; left = refl; ended = inl refl }
Fetches-IsFetching (Fetches.resolved {got} {a} error f at) =
    let v = Fetches-IsFetching f in
    moves_on error connecting got (record a { stage = idle }) v.shown v.left refl
Fetches-IsFetching (Fetches.connected {got} {a} error is_open f at) =
    let v = Fetches-IsFetching f in
    moves_on error sending got (record a { stage = idle; is_open = is_open }) v.shown v.left refl
Fetches-IsFetching (Fetches.sent {got} {a} error f at) =
    let v = Fetches-IsFetching f in
    moves_on error receiving got (record a { stage = idle }) v.shown v.left refl
Fetches-IsFetching (Fetches.received {got} {a} error arrived f at) =
    let v = Fetches-IsFetching f in received_lem error arrived got a v.shown v.left

-- However the operations end: exactly the bytes that were received are printed, in their order, and
-- none is left in the buffer; and when nothing is under way any more, the socket is closed.
pub Fetches-printed :
    {got : Bytes} {a : Application}
    → Fetches got a
    → (a.printed ≡ got) × (a.response ≡ []) × ((a.is_open ≡ false) ⊎ (is_busy a.stage ≡ true))
Fetches-printed f = let v = Fetches-IsFetching f in (v.shown, v.left, v.ended)
