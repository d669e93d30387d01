-- ===== src/Chat/Invariant.antt =====
-- The invariant of one session of the chat server of tutorial/301.chat_server.cpp.
use learn_asio.Base.{
  ℕ, ◌+◌, ◌≤◌, ◌<◌, ◌≡◌, refl, sym, ap, ◌∙◌, false, List, [], ◌∷◌, ◌++◌, arith, Bytes, ltb, ◌==◌,
  ==_iff, if◌then◌else◌, Bool-cases, inl, inr,
}
use learn_asio.Outbox.{IsReady}
use learn_asio.Chat.{Session, ChatServer, new_session, update, store, broadcast, accept}
use learn_asio.Chat.Broadcast.{
  copies, post_times, post_times-SameButOutbox, post_times-IsReady, heap-broadcast,
  broadcast-SameButHeap,
}

-- One session: its outbox is in order; it has a read under way only if it joined; it was allocated
-- if it joined or an accept holds it, and then one of the two, once; and if it did not join, it is
-- as it was made.
pub record IsChatting (w : ChatServer) (p : ℕ) : Type 0 where
  pub ready : IsReady (w.heap p).outbox
  pub reads : (w.heap p).reading ≤ copies p w.sessions
  pub held : copies p w.sessions + copies p w.accepting ≤ (if ltb p w.next then 1 else 0)
  pub blank : copies p w.sessions ≡ 0 → w.heap p ≡ new_session

pub copies-append : (p : ℕ) (xs ys : List ℕ) → copies p (xs ++ ys) ≡ copies p xs + copies p ys
copies-append p [] ys = omega arith
copies-append p (x ∷ xs) ys = ground (arith, copies-append p xs ys)

pub copies_middle :
    (p q : ℕ) (xs ys : List ℕ)
    → copies p (xs ++ q ∷ ys) ≡ (if p == q then 1 else 0) + copies p (xs ++ ys)
copies_middle p q xs ys = ground (arith, copies-append p xs (q ∷ ys), copies-append p xs ys)

-- What holds of the new session at `q`, and of the old ones elsewhere, holds of every one.
pub update-cases :
    (C : Session → Type 0) (h : ℕ → Session) (q : ℕ) (s : Session) (p : ℕ)
    → (p ≡ q → C s)
    → ((p == q) ≡ false → C (h p))
    → C (update h q s p)
update-cases C h q s p here there = elim (Bool-cases (p == q)) [
  | inl same ↦ rw same (here ((==_iff p q).0 same))
  | inr other ↦ rw other (there other)
]

-- A broadcast leaves every session in order.
pub broadcast-IsChatting :
    (msg : Bytes) (w : ChatServer) (p : ℕ) → IsChatting w p → IsChatting (broadcast msg w) p
broadcast-IsChatting msg w p v =
    let n = copies p w.sessions in
    let same = broadcast-SameButHeap msg w in
    let kept = post_times-SameButOutbox n msg (w.heap p) in
    let at = heap-broadcast msg w p in
    record {
      ready = rw at (post_times-IsReady n msg (w.heap p) v.ready);
      reads = rw (at, same.1) (ground (arith, kept, v.reads));
      held = ground (arith, v.held, same);
      blank = λ out.
          let none_of : n ≡ 0 = ap (copies p) (sym same.1) ∙ out in
          at ∙ ap (λ k. post_times k msg (w.heap p)) none_of ∙ v.blank none_of;
    }

-- So does putting a session in order in the place of one that joined.
pub store-IsChatting :
    (q : ℕ) (s : Session) (w : ChatServer) (p : ℕ)
    → IsReady s.outbox
    → s.reading ≤ copies q w.sessions
    → 1 ≤ copies q w.sessions
    → IsChatting w p
    → IsChatting (store q s w) p
store-IsChatting q s w p ready reads joined v = record {
  ready = update-cases (λ x. IsReady x.outbox) w.heap q s p (λ e. ready) λ e. v.ready;
  reads = ground (arith, v.reads, ==_iff p q);
  held = v.held;
  blank = λ out.
      update-cases (λ x. x ≡ new_session) w.heap q s p
        (λ e. absurd (ground (arith, e, out, joined))) λ e. v.blank out;
}

-- So does letting one join that an accept held.
pub add-IsChatting :
    (q : ℕ) (s : Session) (w : ChatServer) (p : ℕ)
    → IsReady s.outbox
    → s.reading ≤ 1
    → copies q w.sessions + copies q w.accepting ≡ 0
    → q < w.next
    → IsChatting w p
    → IsChatting (record (store q s w) { sessions = w.sessions ++ q ∷ [] }) p
add-IsChatting q s w p ready reads out below v = record {
  ready = update-cases (λ x. IsReady x.outbox) w.heap q s p (λ e. ready) λ e. v.ready;
  reads = ground (arith, v.reads, ==_iff p q, copies-append p w.sessions (q ∷ []));
  held = ground (arith, v.held, ==_iff p q, copies-append p w.sessions (q ∷ []));
  blank = λ none_of.
      let many = copies-append p w.sessions (q ∷ []) in
      update-cases (λ x. x ≡ new_session) w.heap q s p
        (λ e. absurd (ground (arith, e, none_of, many)))
        λ e. v.blank (ground (arith, none_of, many));
}

pub accept-IsChatting : (w : ChatServer) (p : ℕ) → IsChatting w p → IsChatting (accept w) p
unfolding accept
accept-IsChatting w p v = record {
  ready =
      update-cases (λ x. IsReady x.outbox) w.heap w.next new_session p (λ e. inl refl) λ e. v.ready;
  reads =
      update-cases (λ x. x.reading ≤ copies p w.sessions) w.heap w.next new_session p
        (λ e. omega arith) λ e. v.reads;
  held = ground (arith, v.held, ==_iff p w.next);
  blank = λ out.
      update-cases (λ x. x ≡ new_session) w.heap w.next new_session p (λ e. refl) λ e. v.blank out;
}
