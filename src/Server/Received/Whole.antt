-- ===== src/Server/Received/Whole.antt =====
-- The request that a connection of src/http_server holds in a run of the server.
use learn_asio.Base.{
  ℕ, ◌≤◌, ◌≡◌, refl, sym, ap, subst, ◌∙◌, true, not, ◌⊎◌, inl, List, [], ◌∷◌, ◌++◌, append-nil,
  arith, Bytes, concat, all, is_empty,
}
use learn_asio.Base.Assoc.{Assoc}
use learn_asio.HttpParser.{HttpParser}
use learn_asio.Message.{Message, want_more, parse, new_message}
use learn_asio.Message.Pieces.{Streams, SameParse, Waits, parse_each, parse_each_lem}
use learn_asio.Server.{
  success, operation_aborted, failure, Operation, reading, World, handle_read, new_server,
  blank_server,
}
use learn_asio.Server.Steps.{Io, Serves}
use learn_asio.Server.Invariant.{IsServing}
use learn_asio.Server.Serving.{Serves-IsServing}
use learn_asio.Server.Fresh.{reads_on, reads_on_middle}
use learn_asio.Server.Received.{Tracks, received, read_by}
use learn_asio.Server.Received.Kept.{
  dropped-Tracks, wrote-Tracks, start_accept-Tracks, accepted-Tracks,
}
use learn_asio.Server.Received.Reads.{taken_by-Tracks, parse_each-snoc, Waits-snoc}

module _ (H : HttpParser) (order : Assoc → Assoc) where
  open H use {Parser}

  Io-Tracks :
      {w w' : World Parser} (p : ℕ) (bs : List Bytes) (s : Io H order w w')
      → IsServing w
      → Tracks H order p bs w
      → Tracks H order p (bs ++ read_by H order p s) w'
  unfolding read_by handle_read
  Io-Tracks {w} {w'} p bs (Io.accepted xs ys ec throws split e) v t =
      rw (append-nil bs) (accepted-Tracks H order p bs xs ys ec throws w w' split e v t)
  Io-Tracks {w} p bs (Io.read xs ys (failure k) now q bytes split fits e) v t =
      rw (append-nil bs, e) (dropped-Tracks H order p q bs (reading q) xs ys w split t)
  Io-Tracks {w} p bs (Io.read xs ys operation_aborted now q bytes split fits e) v t =
      rw e (taken_by-Tracks H order p q bs xs ys now bytes w split v t)
  Io-Tracks {w} p bs (Io.read xs ys success now q bytes split fits e) v t =
      rw e (taken_by-Tracks H order p q bs xs ys now bytes w split v t)
  Io-Tracks {w} p bs (Io.wrote xs ys ec throws q buffers split e) v t =
      rw (append-nil bs, e) (wrote-Tracks H order p bs xs ys ec throws q buffers w split t)

  new_server-Tracks : (p : ℕ) → Tracks H order p [] (new_server H order)
  unfolding new_server
  new_server-Tracks p = start_accept-Tracks H order p [] (blank_server H order) (record {
    parsed = refl;
    waited = tt;
    wants = inl refl;
    unmade = λ above. refl;
    spare = λ held. refl;
  })

  Serves-Tracks :
      {w : World Parser} (p : ℕ) (r : Serves H order (new_server H order) w)
      → Tracks H order p (received H order p r) w
  unfolding received
  Serves-Tracks p Serves.here = new_server-Tracks p
  Serves-Tracks p (Serves.next r s) =
      Io-Tracks p (received H order p r) s (Serves-IsServing H order r) (Serves-Tracks p r)

  -- The message of a connection, in the pieces `bs`, is that of all its bytes at once.
  abbrev pub message_of : List Bytes → Message Parser
  message_of [] = new_message H
  message_of (b ∷ bs) = parse H (new_message H) (b ++ concat bs)

  whole :
      (S : Streams H) (bs : List Bytes)
      → all (λ b. not (is_empty b)) bs ≡ true
      → Waits H (new_message H) bs
      → SameParse (parse_each H (new_message H) bs) (message_of bs)
  whole S [] f w = inl refl
  whole S (b ∷ bs) f w = parse_each_lem H S b bs (ground (arith, f)) (ground (arith, f)) w.1

  -- Whatever the server accepts, reads and writes, in whatever order and with whatever errors: if
  -- no read of a connection gives no bytes, the request that the connection holds is the message
  -- that parse makes, at once, of all the bytes that its reads have brought, first ones first, or
  -- both were refused; and while the connection is read, that message is not complete yet, and was
  -- not refused. The parser takes input in pieces, as Message/Pieces has it.
  pub Serves-message_of :
      {w : World Parser} (p : ℕ) (r : Serves H order (new_server H order) w)
      → Streams H
      → all (λ b. not (is_empty b)) (received H order p r) ≡ true
      → SameParse (w.heap p).request (message_of (received H order p r))
        × ((reads_on p w.pending ≡ 0) ⊎ ((w.heap p).request.message_status ≡ want_more))
  Serves-message_of p r S some_bytes =
      let t = Serves-Tracks p r in
      (
        subst (λ m. SameParse m (message_of (received H order p r))) (sym t.parsed)
            (whole S (received H order p r) some_bytes t.waited),
        t.wants,
      )

  message_of-snoc :
      (bs : List Bytes) (b : Bytes)
      → message_of (bs ++ b ∷ []) ≡ parse H (new_message H) (concat (bs ++ b ∷ []))
  message_of-snoc [] b = refl
  message_of-snoc (c ∷ bs) b = refl

  -- What the next read on `p` makes of its message, if it is read.
  pub parse-concat :
      {w : World Parser} (p : ℕ) (r : Serves H order (new_server H order) w)
      (xs ys : List Operation) (b : Bytes)
      → Streams H
      → all (λ x. not (is_empty x)) (received H order p r ++ b ∷ []) ≡ true
      → w.pending ≡ xs ++ reading p ∷ ys
      → SameParse
          (parse H (w.heap p).request b)
          (parse H (new_message H) (concat (received H order p r ++ b ∷ [])))
  parse-concat {w} p r xs ys b S some_bytes split =
      let t = Serves-Tracks p r in
      let bs = received H order p r in
      let some_read : 1 ≤ reads_on p w.pending =
        ground (arith, ap (reads_on p) split, reads_on_middle p xs ys (reading p)) in
      let wanted : (w.heap p).request.message_status ≡ want_more =
        ground (arith, t.wants, some_read) in
      let waits =
        Waits-snoc H order (new_message H) bs b t.waited
          (ap (λ m. m.message_status) (sym t.parsed) ∙ wanted) in
      let each : parse_each H (new_message H) (bs ++ b ∷ []) ≡ parse H (w.heap p).request b =
        parse_each-snoc H order (new_message H) bs b ∙ ap (λ m. parse H m b) (sym t.parsed) in
      subst (λ m. SameParse m (parse H (new_message H) (concat (bs ++ b ∷ [])))) each
        (subst (SameParse (parse_each H (new_message H) (bs ++ b ∷ []))) (message_of-snoc bs b)
          (whole S (bs ++ b ∷ []) some_bytes waits))
