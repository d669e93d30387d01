-- ===== src/Message/Pieces.antt =====
-- http_message::parse (src/common/message.cpp) when the same bytes come in other pieces.
use learn_asio.Base.{
  Bool-cases, ◌⊎◌, inl, inr, ◌≢◌, ◌≡◌, refl, sym, ap, ◌∙◌, subst, true, false, not, List, [], ◌∷◌,
  ◌++◌, arith, append-nil, append_assoc, Bytes, is_empty, ◌==◌, if◌then◌else◌, concat, all,
}
use learn_asio.HttpParser.{Callback, HttpParser}
use learn_asio.Message.{
  Message, complete, want_more, faild, run_callbacks, feed, finish, parse, new_message,
}
use learn_asio.Message.Headers.{run_callbacks-append}
use learn_asio.Message.Outcome.{
  completes, parse-message_status, feed-message_status, run_callbacks-Kept, outcome,
}
use learn_asio.Message.Fragments.{joined, stays_orderly, stays-append, run-joined, run-parser}

-- What the parser does when the bytes come in two pieces, neither of them empty, and the first one
-- neither completes a message nor is refused. The second piece is refused exactly if the whole is.
-- If it is not, the parser ends in the state in which it ends on the whole, and it reports the same
-- texts, perhaps with one of them in two pieces; of a piece that is refused nothing of the kind is
-- assumed, since the parser may then leave out the text that it was in. It never reports a value
-- without a name.
pub record Streams (H : HttpParser) : Type 0 where
  pub refuses :
      (a b : Bytes)
      → is_empty a ≡ false
      → is_empty b ≡ false
      → let r = H.execute H.init a in
        (H.http_errno r.0 == 0) ≡ true
        → completes r.1 ≡ false
        → (H.http_errno (H.execute H.init (a ++ b)).0 == 0)
          ≡ (H.http_errno (H.execute r.0 b).0 == 0)
  pub cut :
      (a b : Bytes)
      → is_empty a ≡ false
      → is_empty b ≡ false
      → let r = H.execute H.init a in
        let r' = H.execute r.0 b in
        let s = H.execute H.init (a ++ b) in
        (H.http_errno r.0 == 0) ≡ true
        → completes r.1 ≡ false
        → (H.http_errno r'.0 == 0) ≡ true
        → (s.0 ≡ r'.0) × (joined s.1 ≡ joined (r.1 ++ r'.1))
  pub named :
      (a b : Bytes) (p : H.Parser)
      → let r = H.execute H.init a in
        stays_orderly (r.1 ++ (H.execute r.0 b).1) (record (new_message H) { parser = p }) ≡ true

-- The messages are the same, or both were refused.
abbrev pub SameParse : {P : Type 0} → Message P → Message P → Type 0
SameParse m n = (m ≡ n) ⊎ ((m.message_status ≡ faild) × (n.message_status ≡ faild))

SameParse-accepted :
    {P : Type 0} {m n : Message P} → SameParse m n → m.message_status ≢ faild → m ≡ n
SameParse-accepted (inl e) h = e
SameParse-accepted (inr both) h = absurd (h both.0)

pub SameParse-complete :
    {P : Type 0} {m n : Message P} → SameParse m n → n.message_status ≡ complete → m ≡ n
SameParse-complete (inl e) h = e
SameParse-complete (inr both) h = absurd (ground (arith, both.1, h))

some_left : (a b : Bytes) → is_empty a ≡ false → is_empty (a ++ b) ≡ false
some_left [] b h = absurd (ground (arith, h))
some_left (x ∷ a) b h = refl

module _ (H : HttpParser) where
  open H use {Parser, init, execute, http_errno}

  -- A connection's message, after it has parsed one piece after the other.
  abbrev pub parse_each : Message Parser → List Bytes → Message Parser
  parse_each m [] = m
  parse_each m (b ∷ bs) = parse_each (parse H m b) bs

  -- Before each of the pieces the message wants more.
  abbrev pub Waits : Message Parser → List Bytes → Type 0
  Waits m [] = Unit
  Waits m (b ∷ bs) = (m.message_status ≡ want_more) × Waits (parse H m b) bs

  -- The message that feed makes of the callbacks so far, with the parser in the state `p`.
  abbrev fed : Parser → List Callback → Message Parser
  fed p cs = run_callbacks cs (record (new_message H) { parser = p })

  abbrev checked : Parser → Message Parser → Message Parser
  checked p m = if http_errno p == 0 then m else record m { message_status = faild }

  feed_first :
      (a : Bytes)
      → feed H (new_message H) a
        ≡ checked (execute init a).0 (fed (execute init a).0 (execute init a).1)
  unfolding feed new_message
  feed_first a = refl

  feed_next :
      (q : Parser) (cs : List Callback) (b : Bytes)
      → feed H (fed q cs) b ≡ checked (execute q b).0 (fed (execute q b).0 (cs ++ (execute q b).1))
  unfolding feed
  feed_next q cs b =
      let r = execute q b in
      let from_q =
        ap
          (λ x.
            let r' = execute x b in
            checked r'.0 (run_callbacks r'.1 (record (fed q cs) { parser = r'.0 })))
          (run_callbacks-Kept cs (record (new_message H) { parser = q })).1 in
      from_q
      ∙ ap (checked r.0) (
          ap (run_callbacks r.1) (run-parser cs (record (new_message H) { parser = q }) r.0)
          ∙ sym (run_callbacks-append cs r.1 (record (new_message H) { parser = r.0 })))

  -- What parse makes of the message that feed returns.
  abbrev finished : Message Parser → Message Parser
  finished m = finish H m.message_status m

  parse_lem : (m : Message Parser) (b : Bytes) → parse H m b ≡ finished (feed H m b)
  unfolding parse
  parse_lem m b = refl

  parse_first :
      (a : Bytes)
      → (parse H (new_message H) a).message_status ≡ want_more
      → (parse H (new_message H) a ≡ fed (execute init a).0 (execute init a).1)
        × ((http_errno (execute init a).0 == 0) ≡ true)
        × (completes (execute init a).1 ≡ false)
  unfolding finish new_message
  parse_first a w =
      let r = execute init a in
      let after : outcome (http_errno r.0 == 0) (completes r.1) want_more ≡ want_more =
        sym (parse-message_status H (new_message H) a).0 ∙ w in
      let fine : (http_errno r.0 == 0) ≡ true = ground (arith, after) in
      let more : completes r.1 ≡ false = ground (arith, after, fine) in
      let fed_a : feed H (new_message H) a ≡ fed r.0 r.1 = feed_first a ∙ rw fine refl in
      let status : (feed H (new_message H) a).message_status ≡ want_more =
        feed-message_status H (new_message H) a ∙ after in
      (
        parse_lem (new_message H) a
            ∙ ap (λ x. finish H x (feed H (new_message H) a)) status
            ∙ fed_a,
        fine,
        more,
      )

  same_texts :
      (p : Parser) (cs ds : List Callback)
      → stays_orderly cs (record (new_message H) { parser = p }) ≡ true
      → stays_orderly ds (record (new_message H) { parser = p }) ≡ true
      → joined cs ≡ joined ds
      → fed p cs ≡ fed p ds
  same_texts p cs ds hc hd e =
      let m = record (new_message H) { parser = p } in
      sym (run-joined cs m hc) ∙ ap (λ x. run_callbacks x m) e ∙ run-joined ds m hd

  starts_init : (new_message H).parser ≡ init
  unfolding new_message
  starts_init = refl

  -- A parse that the parser refuses.
  parse-refused :
      (m : Message Parser) (b : Bytes)
      → (http_errno (execute m.parser b).0 == 0) ≡ false
      → (parse H m b).message_status ≡ faild
  parse-refused m b e = (parse-message_status H m b).0 ∙ rw e refl

  module _ (S : Streams H) where
    parse_accepted :
        (a b : Bytes)
        → is_empty a ≡ false
        → is_empty b ≡ false
        → (parse H (new_message H) a).message_status ≡ want_more
        → (http_errno (execute (execute init a).0 b).0 == 0) ≡ true
        → parse H (parse H (new_message H) a) b ≡ parse H (new_message H) (a ++ b)
    parse_accepted a b fa fb w good =
        let r = execute init a in
        let r' = execute r.0 b in
        let s = execute init (a ++ b) in
        let (first, fine, more) = parse_first a w in
        let (state, texts) = S.cut a b fa fb fine more good in
        let same : fed r'.0 s.1 ≡ fed r'.0 (r.1 ++ r'.1) =
          same_texts r'.0 s.1 (r.1 ++ r'.1)
            (stays-append s.1 (execute s.0 []).1 (record (new_message H) { parser = r'.0 })
              (S.named (a ++ b) [] r'.0))
            (S.named a b r'.0) texts in
        let whole : feed H (new_message H) (a ++ b) ≡ checked r'.0 (fed r'.0 (r.1 ++ r'.1)) =
          feed_first (a ++ b) ∙ ap (λ p. checked p (fed p s.1)) state ∙ ap (checked r'.0) same in
        ap (λ m. parse H m b) first
        ∙ parse_lem (fed r.0 r.1) b
        ∙ ap finished (feed_next r.0 r.1 b ∙ sym whole)
        ∙ sym (parse_lem (new_message H) (a ++ b))

    parse_two :
        (a b : Bytes)
        → is_empty a ≡ false
        → is_empty b ≡ false
        → (parse H (new_message H) a).message_status ≡ want_more
        → SameParse (parse H (parse H (new_message H) a) b) (parse H (new_message H) (a ++ b))
    parse_two a b fa fb w =
        let r = execute init a in
        let (first, fine, more) = parse_first a w in
        elim (Bool-cases (http_errno (execute r.0 b).0 == 0)) [
          | inl good ↦ inl (parse_accepted a b fa fb w good)
          | inr bad ↦
              let at : (parse H (new_message H) a).parser ≡ r.0 =
                ap (λ m. m.parser) first
                ∙ (run_callbacks-Kept r.1 (record (new_message H) { parser = r.0 })).1 in
              let second : (parse H (parse H (new_message H) a) b).message_status ≡ faild =
                parse-refused (parse H (new_message H) a) b
                  (ap (λ x. http_errno (execute x b).0 == 0) at ∙ bad) in
              let whole : (parse H (new_message H) (a ++ b)).message_status ≡ faild =
                parse-refused (new_message H) (a ++ b) (
                  ap (λ x. http_errno (execute x (a ++ b)).0 == 0) starts_init
                  ∙ S.refuses a b fa fb fine more
                  ∙ bad) in
              inr (second, whole)
        ]

    -- However the bytes of a message are cut into pieces, none of them empty: if a connection's new
    -- message parses one piece after the other, and wants more after each but the last, it is
    -- refused exactly if it is when all the bytes come at once; and if it is not, it ends as the same
    -- message, every field and the parser's state included.
    pub parse_each_lem :
        (b : Bytes) (bs : List Bytes)
        → is_empty b ≡ false
        → all (λ x. not (is_empty x)) bs ≡ true
        → Waits (parse H (new_message H) b) bs
        → SameParse (parse_each (new_message H) (b ∷ bs)) (parse H (new_message H) (b ++ concat bs))
    parse_each_lem b [] f fs w = inl (ap (parse H (new_message H)) (sym (append-nil b)))
    parse_each_lem b (c ∷ []) f fs w =
        subst
          (λ l.
            SameParse (parse H (parse H (new_message H) b) c) (parse H (new_message H) (b ++ l)))
          (sym (append-nil c)) (parse_two b c f (ground (arith, fs)) w.0)
    parse_each_lem b (c ∷ d ∷ cs) f fs w =
        let two : parse H (parse H (new_message H) b) c ≡ parse H (new_message H) (b ++ c) =
          SameParse-accepted (parse_two b c f (ground (arith, fs)) w.0)
            (λ e. ground (arith, e, w.1.0)) in
        let rest =
          parse_each_lem (b ++ c) (d ∷ cs) (some_left b c f) (ground (arith, fs))
            (subst (λ m. Waits m (d ∷ cs)) two w.1) in
        subst (λ m. SameParse m (parse H (new_message H) (b ++ concat (c ∷ d ∷ cs))))
          (ap (λ m. parse_each m (d ∷ cs)) (sym two))
          (subst
            (λ l.
              SameParse (parse_each (parse H (new_message H) (b ++ c)) (d ∷ cs))
                (parse H (new_message H) l))
            (append_assoc b c (concat (d ∷ cs))) rest)
