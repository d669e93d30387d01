-- ===== src/Daytime/Tcp/Greetings.antt =====
-- What the server of src/basics/daytime3.cpp writes to its clients, and what ends it.
use mathlib.Core.List.{Perm, map-append}
use mathlib.Core.List.Perm
use learn_asio.Base.{
  Bool, true, not, ◌||◌, all, ap, ℕ, suc, ◌≡◌, refl, sym, ◌∙◌, subst, List, [], ◌∷◌, ◌++◌, map,
  arith, Bytes,
}
use learn_asio.Base.Perms.{perm_start, perm_end}
use learn_asio.Daytime.Tcp.{
  Client, Server, returned, new_server, message, start, start_accept, accept, write, Serves,
}

-- A client's message, and its connection.
abbrev pub greeting : Client → ℕ × Bytes
greeting c = (c.connection, message c)

-- The accept brought a client, and the client was still there when its connection was started.
abbrev pub came : Client → Bool
came c = not (c.failed || c.throws)

all-came :
    (cs : List Client) (c : Client)
    → all came cs ≡ true
    → came c ≡ true
    → all came (cs ++ c ∷ []) ≡ true
all-came [] c h e = ground (arith, e)
all-came (x ∷ cs) c h e = ground (arith, h, all-came cs c (ground (arith, h)) e)

accept_lem :
    (c : Client) (s s' : Server)
    → accept c s ≡ returned s'
    → (s'.accepts ≡ suc s.accepts) × (s'.writes ≡ s.writes ++ greeting c ∷ []) × (came c ≡ true)
unfolding accept start start_accept
accept_lem c s s' e = ground (arith, e)

write_lem :
    (error throws_at_end : Bool) (s s' : Server)
    → write error throws_at_end s ≡ returned s'
    → s' ≡ s
unfolding write
write_lem error throws_at_end s s' e = ground (arith, e)

-- As long as all handlers return, one accept is under way, and what was written and what is being
-- written are a permutation of a message for each accepted client, with the daytime of its own
-- accept and its own address, to its own connection; and no accept has failed, and no client was
-- gone when its connection was started.
pub Serves-message :
    {cs : List Client} {ws : List (ℕ × Bytes)} {s : Server}
    → Serves cs ws s
    → (s.accepts ≡ 1) × Perm (ws ++ s.writes) (map greeting cs) × (all came cs ≡ true)
unfolding new_server
Serves-message Serves.here = (refl, Perm.refl [], refl)
Serves-message (Serves.accepted {cs} {ws} {s} {s'} c n r one e) =
    let (accepting, greeted, present) = Serves-message r in
    let (more, writes, there) = accept_lem c (record s { accepts = n }) s' e in
    (
      more ∙ sym one ∙ accepting,
      subst (λ l. Perm (ws ++ l) (map greeting (cs ++ c ∷ []))) (sym writes)
          (subst (λ l. Perm (ws ++ (s.writes ++ greeting c ∷ [])) l)
            (sym (map-append greeting cs (c ∷ []))) (perm_start ws s.writes (greeting c) greeted)),
      all-came cs c present there,
    )
Serves-message (Serves.written {cs} {ws} {s} xs ys m error throws r split e) =
    let (accepting, greeted, present) = Serves-message r in
    let at = write_lem error throws (record s { writes = xs ++ ys }) _ e in
    (
      ap (λ x. x.accepts) at ∙ accepting,
      subst (λ x. Perm ((ws ++ m ∷ []) ++ x.writes) (map greeting cs)) (sym at)
          (perm_end ws xs ys m (subst (λ l. Perm (ws ++ l) (map greeting cs)) split greeted)),
      present,
    )
