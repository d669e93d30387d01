-- ===== src/Daytime/Both/Invariant.antt =====
-- What the two servers of src/basics/daytime7.cpp send, in any order of their handlers.
use mathlib.Core.List.{Perm, map-append, append-eq-nil_iff}
use mathlib.Core.List.Perm
use learn_asio.Base.{
  ℕ, suc, ◌+◌, ◌≡◌, refl, sym, ap, if◌then◌else◌, ◌||◌, ◌∙◌, subst, Bool, some, List, [], ◌∷◌, ◌++◌,
  map, arith, Bytes, length,
}
use learn_asio.Base.Perms.{perm_start, perm_end}
use learn_asio.Daytime.{Datagram, Client, make_daytime_string, answer_each, greet_each}
use learn_asio.Daytime.Both.{
  Servers, new_servers, accept, start, start_accept, write, receive, sent, Serves,
}

-- A client's daytime, and who gets it.
abbrev pub greeting : Client → ℕ × Bytes
greeting c = (c.socket, make_daytime_string c.now)

-- The clients from the first one on with which the blocking server ends.
abbrev pub from_exception : List Client → List Client
from_exception [] = []
from_exception (c ∷ cs) = if c.failed || c.throws then c ∷ cs else from_exception cs

greet_each-greeting :
    (cs : List Client) → (greet_each cs).0 ++ map greeting (from_exception cs) ≡ map greeting cs
unfolding greet_each
greet_each-greeting [] = refl
greet_each-greeting (c ∷ cs) = ground (arith, greet_each-greeting cs)

-- What is being sent is read from message_.
abbrev pub addressed : Servers → List (ℕ × Bytes)
addressed w = map (λ p. (p, w.message)) w.sends

record IsServing (cs : List Client) (ws : List (ℕ × Bytes)) (ds : List Datagram)
    (us : List (ℕ × Bytes)) (w : Servers) : Type 0 where
  accepting : w.accepts ≡ 1
  greeted : Perm (ws ++ w.writes) (map greeting cs)
  received_once : w.receives + length ds ≡ 1
  answered : Perm (us ++ addressed w) (answer_each ds).0

-- What accept leaves, if it does not throw.
accept_lem : (c : Client) (w w' : Servers) → accept c w ≡ some w' → w' ≡ start_accept (start c w)
unfolding accept
accept_lem c w w' e = ground (arith, e)

write_lem : (error : Bool) (w w' : Servers) → write error w ≡ some w' → w' ≡ w
unfolding write
write_lem error w w' e = ground (arith, e)

IsServing-start :
    {cs : List Client} {ws us : List (ℕ × Bytes)} {ds : List Datagram} {w : Servers} (c : Client)
    (n : ℕ)
    → IsServing cs ws ds us w
    → w.accepts ≡ suc n
    → IsServing (cs ++ c ∷ []) ws ds us (start_accept (start c (record w { accepts = n })))
unfolding start_accept start
IsServing-start {cs} {ws} {us} {ds} {w} c n v one = record {
  accepting = sym one ∙ v.accepting;
  greeted =
      subst (λ l. Perm (ws ++ (w.writes ++ greeting c ∷ [])) l)
        (sym (map-append greeting cs (c ∷ []))) (perm_start ws w.writes (greeting c) v.greeted);
  received_once = v.received_once;
  answered = v.answered;
}

receive_keeps :
    (d : Datagram) (w : Servers)
    → ((receive d w).accepts ≡ w.accepts)
      × ((receive d w).writes ≡ w.writes)
      × ((receive d w).receives ≡ w.receives)
unfolding receive
receive_keeps d w = ground arith

map_nil : (f : ℕ → ℕ × Bytes) (xs : List ℕ) → map f xs ≡ [] → xs ≡ []
map_nil f [] e = refl
map_nil f (x ∷ xs) e = absurd (ground (arith, e))

no_sends :
    (us : List (ℕ × Bytes)) (w : Servers) → us ++ addressed w ≡ [] → (us ≡ []) × (w.sends ≡ [])
no_sends us w e =
    let (no_us, none_sent) = append-eq-nil_iff.0 e in
    (no_us, map_nil (λ p. (p, w.message)) w.sends none_sent)

first_answer :
    (us : List (ℕ × Bytes)) (d : Datagram) (n : ℕ) (w : Servers)
    → us ++ addressed w ≡ []
    → us ++ addressed (receive d (record w { remote_endpoint = d.sender; receives = n }))
      ≡ (answer_each (d ∷ [])).0
unfolding receive answer_each
first_answer us d n w e =
    let (no_us, none_sent) = no_sends us w e in ground (arith, no_us, none_sent)

IsServing-receive :
    {cs : List Client} {ws us : List (ℕ × Bytes)} {ds : List Datagram} {w : Servers} (d : Datagram)
    (n : ℕ)
    → IsServing cs ws ds us w
    → w.receives ≡ suc n
    → IsServing cs ws
        (ds ++ d ∷ [])
        us
        (receive d (record w { remote_endpoint = d.sender; receives = n }))
unfolding answer_each
IsServing-receive {cs} {ws} {us} {ds = []} {w} d n v one =
    let keeps = receive_keeps d (record w { remote_endpoint = d.sender; receives = n }) in
    record {
      accepting = keeps.0 ∙ v.accepting;
      greeted = subst (λ l. Perm (ws ++ l) (map greeting cs)) (sym keeps.1) v.greeted;
      received_once = ground (arith, keeps.2, one, v.received_once);
      answered =
          subst (λ l. Perm l (answer_each (d ∷ [])).0)
            (sym (first_answer us d n w (Perm.eq-nil v.answered)))
            (Perm.refl (answer_each (d ∷ [])).0);
    }
IsServing-receive {ds = x ∷ ds} {w} d n v one = absurd (ground (arith, one, v.received_once))

Serves-IsServing :
    {cs : List Client} {ws us : List (ℕ × Bytes)} {ds : List Datagram} {w : Servers}
    → Serves cs ws ds us w
    → IsServing cs ws ds us w
unfolding new_servers sent answer_each
Serves-IsServing Serves.here = record {
  accepting = refl;
  greeted = Perm.refl [];
  received_once = refl;
  answered = Perm.refl [];
}
Serves-IsServing (Serves.accepted {cs} {ws} {us} {ds} {w} c n r one e) =
    subst (λ x. IsServing (cs ++ c ∷ []) ws ds us x)
      (sym (accept_lem c (record w { accepts = n }) _ e))
      (IsServing-start c n (Serves-IsServing r) one)
Serves-IsServing (Serves.written {cs} {ws} {us} {ds} {w} xs ys m error r split e) =
    let v = Serves-IsServing r in
    subst (λ x. IsServing cs (ws ++ m ∷ []) ds us x)
      (sym (write_lem error (record w { writes = xs ++ ys }) _ e))
      (record {
        accepting = v.accepting;
        greeted =
            perm_end ws xs ys m (subst (λ l. Perm (ws ++ l) (map greeting cs)) split v.greeted);
        received_once = v.received_once;
        answered = v.answered;
      })
Serves-IsServing (Serves.received d n r one) = IsServing-receive d n (Serves-IsServing r) one
Serves-IsServing (Serves.answered {cs} {ws} {us} {ds} {w} xs ys p r split) =
    let to : ℕ → ℕ × Bytes = λ q. (q, w.message) in
    let v = Serves-IsServing r in
    record {
      accepting = v.accepting;
      greeted = v.greeted;
      received_once = v.received_once;
      answered =
          subst (λ l. Perm ((us ++ to p ∷ []) ++ l) (answer_each ds).0) (sym (map-append to xs ys))
            (perm_end us (map to xs) (map to ys) (to p) (
              subst (λ l. Perm (us ++ l) (answer_each ds).0)
                (ap (map to) split ∙ map-append to xs (p ∷ ys)) v.answered));
    }

module _ {cs : List Client} {ws us : List (ℕ × Bytes)} {ds : List Datagram} {w : Servers} where
  -- As long as no exception has ended the two servers, one accept is under way, and what was written
  -- to the TCP clients and what is being written are a permutation of what the blocking server of
  -- daytime2 writes up to the first client with which it ends, followed by a daytime for each
  -- client from there on.
  pub Serves-greet_each :
      Serves cs ws ds us w
      → (w.accepts ≡ 1)
        × Perm (ws ++ w.writes) ((greet_each cs).0 ++ map greeting (from_exception cs))
  Serves-greet_each r =
      let v = Serves-IsServing r in
      (v.accepting, subst (λ l. Perm (ws ++ w.writes) l) (sym (greet_each-greeting cs)) v.greeted)

  -- In every run without an exception, either a wait for a datagram is under way and none has ended,
  -- or one has ended and none is under way. What the UDP server has sent and is sending is, up to
  -- its order, what the blocking server answers to the waits that have ended.
  pub receives_once :
      Serves cs ws ds us w
      → (w.receives + length ds ≡ 1) × Perm (us ++ addressed w) (answer_each ds).0
  receives_once r = let v = Serves-IsServing r in (v.received_once, v.answered)
