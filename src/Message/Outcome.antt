-- ===== src/Message/Outcome.antt =====
-- What one call of http_message::parse does to the message, for any parser.
use learn_asio.Base.{
  list_laws, ◌≡◌, refl, ◌∙◌, Bool, true, false, List, [], ◌∷◌, ◌++◌, arith, append_assoc, Bytes,
  ◌==◌, if◌then◌else◌,
}
use learn_asio.HttpParser.{Callback, on_message_complete, on_url, on_body, HttpParser}
use learn_asio.Message.{
  Message, MessageStatus, complete, want_more, faild, callback, run_callbacks, to_method, parse,
  finish, feed, reset,
}

-- Whether on_message_complete is among the callbacks.
abbrev pub completes : List Callback → Bool
completes [] = false
completes (on_message_complete ∷ cs) = true
completes (_ ∷ cs) = completes cs

-- The pieces of the URL, and those of the body, joined.
abbrev pub url_of : List Callback → Bytes
url_of [] = []
url_of (on_url at ∷ cs) = at ++ url_of cs
url_of (_ ∷ cs) = url_of cs

abbrev pub body_of : List Callback → Bytes
body_of [] = []
body_of (on_body at ∷ cs) = at ++ body_of cs
body_of (_ ∷ cs) = body_of cs

abbrev pub is_complete : MessageStatus → Bool
is_complete complete = true
is_complete want_more = false
is_complete faild = false

-- An error of the parser wins; else a message that was completed now stays so, and any other
-- keeps the status that it had.
abbrev pub outcome : Bool → Bool → MessageStatus → MessageStatus
outcome false done old = faild
outcome true true old = complete
outcome true false old = old

module _ {P : Type 0} where
  status_run :
      (cs : List Callback) (m : Message P)
      → (run_callbacks cs m).message_status ≡ (if completes cs then complete else m.message_status)
  unfolding run_callbacks callback
  status_run [] m = refl
  status_run (on_message_complete ∷ cs) m =
      ground (arith, status_run cs (callback on_message_complete m))
  status_run (c ∷ cs) m = ground (arith, status_run cs (callback c m))

  -- The fields that no callback touches.
  abbrev pub Kept : Message P → Message P → Type 0
  Kept m n =
      (n.method ≡ m.method)
      × (n.http_major ≡ m.http_major)
      × (n.http_minor ≡ m.http_minor)
      × (n.status ≡ m.status)
      × (n.keep_alive ≡ m.keep_alive)
      × (n.upgrade ≡ m.upgrade)

  pub run_callbacks-Kept :
      (cs : List Callback) (m : Message P)
      → Kept m (run_callbacks cs m) × ((run_callbacks cs m).parser ≡ m.parser)
  unfolding run_callbacks callback
  run_callbacks-Kept [] m = ground arith
  run_callbacks-Kept (c ∷ cs) m = ground (arith, run_callbacks-Kept cs (callback c m))

  url_run : (cs : List Callback) (m : Message P) → (run_callbacks cs m).url ≡ m.url ++ url_of cs
  unfolding run_callbacks callback
  url_run [] m = simp list_laws
  url_run (on_url at ∷ cs) m =
      url_run cs (callback (on_url at) m) ∙ append_assoc m.url at (url_of cs)
  url_run (c ∷ cs) m = url_run cs (callback c m) ∙ ground arith

  body_run : (cs : List Callback) (m : Message P) → (run_callbacks cs m).body ≡ m.body ++ body_of cs
  unfolding run_callbacks callback
  body_run [] m = simp list_laws
  body_run (on_body at ∷ cs) m =
      body_run cs (callback (on_body at) m) ∙ append_assoc m.body at (body_of cs)
  body_run (c ∷ cs) m = body_run cs (callback c m) ∙ ground arith

module _ (H : HttpParser) where
  open H use {
    Parser, execute, http_errno, major, minor, verb, status_code, should_keep_alive, upgraded,
  }

  -- The status that parsing `bytes` leaves.
  abbrev pub status_after : Message Parser → Bytes → MessageStatus
  status_after m bytes =
      let r = execute m.parser bytes in
      outcome (http_errno r.0 == 0) (completes r.1) m.message_status

  pub feed-message_status :
      (m : Message Parser) (bytes : Bytes) → (feed H m bytes).message_status ≡ status_after m bytes
  unfolding feed
  feed-message_status m bytes =
      let r = execute m.parser bytes in ground (arith, status_run r.1 (record m { parser = r.0 }))

  feed-Kept :
      (m : Message Parser) (bytes : Bytes)
      → Kept m (feed H m bytes) × ((feed H m bytes).parser ≡ (execute m.parser bytes).0)
  unfolding feed
  feed-Kept m bytes =
      let r = execute m.parser bytes in
      ground (arith, run_callbacks-Kept r.1 (record m { parser = r.0 }))

  feed_appends :
      (m : Message Parser) (bytes : Bytes)
      → let cs = (execute m.parser bytes).1 in
        let m' = feed H m bytes in (m'.url ≡ m.url ++ url_of cs) × (m'.body ≡ m.body ++ body_of cs)
  unfolding feed
  feed_appends m bytes =
      let r = execute m.parser bytes in
      let m' = record m { parser = r.0 } in ground (arith, url_run r.1 m', body_run r.1 m')

  -- The fields that are copied from the parser `p` when `done`.
  abbrev pub Copied : Bool → Parser → Message Parser → Message Parser → Type 0
  Copied done p m m' =
      (m'.method ≡ (if done then to_method (verb p) m.method else m.method))
      × (m'.http_major ≡ (if done then major p else m.http_major))
      × (m'.http_minor ≡ (if done then minor p else m.http_minor))
      × (m'.status ≡ (if done then status_code p else m.status))
      × (m'.keep_alive ≡ (if done then should_keep_alive p else m.keep_alive))
      × (m'.upgrade ≡ (if done then upgraded p else m.upgrade))

  finish_lem :
      (s : MessageStatus) (m : Message Parser)
      → Copied (is_complete s) m.parser m (finish H s m)
        × ((finish H s m).message_status ≡ m.message_status)
        × ((finish H s m).url ≡ m.url)
        × ((finish H s m).body ≡ m.body)
  unfolding finish
  finish_lem complete m = ground arith
  finish_lem want_more m = ground arith
  finish_lem faild m = ground arith

  -- One call of http_message::parse: the message is faild if the parser reports an error, else
  -- complete if the parser completed a message in this call, else what it was. Exactly when it is
  -- complete, the method, the version, the status code and the two flags are the parser's (the
  -- method only if the program knows it); otherwise they are what they were.
  pub parse-message_status :
      (m : Message Parser) (bytes : Bytes)
      → let m' = parse H m bytes in
        (m'.message_status ≡ status_after m bytes)
        × Copied (is_complete (status_after m bytes)) (execute m.parser bytes).0 m m'
  unfolding parse
  parse-message_status m bytes =
      let m' = feed H m bytes in
      let f = finish_lem m'.message_status m' in
      let k = feed-Kept m bytes in let s = feed-message_status m bytes in ground (arith, f, k, s)

  -- One call of http_message::parse appends the pieces that the parser reports to the URL and to
  -- the body, in their order, whatever becomes of the message.
  parse_appends :
      (m : Message Parser) (bytes : Bytes)
      → let cs = (execute m.parser bytes).1 in
        let m' = parse H m bytes in (m'.url ≡ m.url ++ url_of cs) × (m'.body ≡ m.body ++ body_of cs)
  unfolding parse
  parse_appends m bytes =
      let m' = feed H m bytes in
      ground (arith, feed_appends m bytes, finish_lem m'.message_status m')

  -- http_message::reset leaves a completed message complete and keeps its URL: the next bytes that
  -- the parser takes without an error make a complete message, whether or not they complete one,
  -- and its URL goes on from the old one.
  reset_stays_complete :
      (m : Message Parser) (bytes : Bytes)
      → m.message_status ≡ complete
      → http_errno (execute (reset H m).parser bytes).0 ≡ 0
      → let m' = parse H (reset H m) bytes in
        (m'.message_status ≡ complete)
        × (m'.url ≡ m.url ++ url_of (execute (reset H m).parser bytes).1)
  unfolding reset
  reset_stays_complete m bytes c e =
      ground (arith, parse-message_status (reset H m) bytes, parse_appends (reset H m) bytes)
