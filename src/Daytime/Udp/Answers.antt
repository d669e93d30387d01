-- ===== src/Daytime/Udp/Answers.antt =====
-- What the server of src/basics/daytime6.cpp answers, next to the blocking one of daytime5.cpp.
use mathlib.Core.List.{Perm, map-append}
use mathlib.Core.List.Perm
use learn_asio.Base.{
  ℕ, ◌≡◌, refl, sym, ◌∙◌, subst, none, some, List, [], ◌∷◌, ◌++◌, map, arith, Bytes,
}
use learn_asio.Base.Perms.{perm_start, perm_end}
use learn_asio.Daytime.{Datagram, answer_each}
use learn_asio.Daytime.Udp.{
  UdpServer, message, receive, send, handler, start_receive, new_server, Serves,
}

-- A datagram's answer, and who gets it.
abbrev pub reply : Datagram → ℕ × Bytes
reply d = (d.sender, message d)

-- The datagrams from the first error on.
abbrev pub from_error : List Datagram → List Datagram
from_error [] = []
from_error (d ∷ ds) = elim d.error [ none ↦ from_error ds | some _ ↦ d ∷ ds ]

answer_each-reply :
    (ds : List Datagram) → (answer_each ds).0 ++ map reply (from_error ds) ≡ map reply ds
unfolding answer_each
answer_each-reply [] = refl
answer_each-reply (d ∷ ds) = ground (arith, answer_each-reply ds)

handler-keeps :
    (k : ℕ) (s : UdpServer)
    → ((handler k s).receives ≡ s.receives) × ((handler k s).sends ≡ s.sends)
unfolding handler
handler-keeps k s = ground arith

-- One receive is under way, and every datagram has its answer.
record IsAnswering (ds : List Datagram) (ws : List (ℕ × Bytes)) (s : UdpServer) : Type 0 where
  receiving : s.receives ≡ 1
  answered : Perm (ws ++ s.sends) (map reply ds)

Serves-IsAnswering :
    {ds : List Datagram} {ws : List (ℕ × Bytes)} {s : UdpServer}
    → Serves ds ws s
    → IsAnswering ds ws s
unfolding new_server receive start_receive send
Serves-IsAnswering Serves.here = record { receiving = refl; answered = Perm.refl [] }
Serves-IsAnswering (Serves.received {ds} {ws} {s} d n r on one) =
    let v = Serves-IsAnswering r in
    record {
      receiving = ground (arith, one, v.receiving);
      answered =
          subst (λ l. Perm (ws ++ (s.sends ++ reply d ∷ [])) l) (sym (map-append reply ds (d ∷ [])))
            (perm_start ws s.sends (reply d) v.answered);
    }
Serves-IsAnswering (Serves.sent {ds} {ws} {s} xs ys m r on split) =
    let v = Serves-IsAnswering r in
    record {
      receiving = v.receiving;
      answered = perm_end ws xs ys m (subst (λ l. Perm (ws ++ l) (map reply ds)) split v.answered);
    }
Serves-IsAnswering (Serves.signal {ds} {ws} {s} k r on) =
    let v = Serves-IsAnswering r in
    let (receives, sends) = handler-keeps k s in
    record {
      receiving = receives ∙ v.receiving;
      answered = subst (λ l. Perm (ws ++ l) (map reply ds)) (sym sends) v.answered;
    }

-- In every run one receive is under way, and the answers, those whose send has ended and those that
-- are being sent, are a permutation of those that the blocking server gives to the same datagrams
-- up to the first error, followed by one answer for each datagram from there on, where the
-- blocking server ends.
pub Serves-answer_each :
    {ds : List Datagram} {ws : List (ℕ × Bytes)} {s : UdpServer}
    → Serves ds ws s
    → (s.receives ≡ 1) × Perm (ws ++ s.sends) ((answer_each ds).0 ++ map reply (from_error ds))
Serves-answer_each {ds} {ws} {s} r =
    let v = Serves-IsAnswering r in
    (v.receiving, subst (λ l. Perm (ws ++ s.sends) l) (sym (answer_each-reply ds)) v.answered)
