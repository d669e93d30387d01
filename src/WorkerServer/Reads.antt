-- ===== src/WorkerServer/Reads.antt =====
-- Who is read from, and what is printed, in tutorial/201.async_tcp_server.cpp.
use mathlib.Core.List.{Perm, map-append}
use mathlib.Core.List.Perm
use learn_asio.Base.{
  ℕ, suc, ◌+◌, ◌≡◌, refl, sym, ap, ◌∙◌, subst, Bool, true, false, Option, none, some, List, [], ◌∷◌,
  ◌++◌, map, arith, append-nil, Bytes,
}
use learn_asio.Base.Perms.{perm_start, perm_end}
use learn_asio.WorkerServer.{
  Server, new_server, do_accept, start, do_read, on_accept, on_read, do_write, Serves,
}

-- The texts of the reads that brought one.
abbrev pub texts : List (ℕ × Option Bytes) → List Bytes
texts [] = []
texts ((p, some text) ∷ rs) = text ∷ texts rs
texts ((p, none) ∷ rs) = texts rs

abbrev pub reader : ℕ × Option Bytes → ℕ
reader r = r.0

texts-append : (rs qs : List (ℕ × Option Bytes)) → texts (rs ++ qs) ≡ texts rs ++ texts qs
texts-append [] qs = refl
texts-append ((p, some text) ∷ rs) qs = ap (λ ts. text ∷ ts) (texts-append rs qs)
texts-append ((p, none) ∷ rs) qs = texts-append rs qs

on_accept_lem :
    (throws : Bool) (p : ℕ) (s s' : Server)
    → on_accept false throws p s ≡ some s'
    → s' ≡ record s { accepts = suc s.accepts; reads = s.reads ++ p ∷ [] }
unfolding on_accept start do_read do_accept
on_accept_lem throws p s s' e = ground (arith, e)

on_accept_failed :
    (throws : Bool) (p : ℕ) (s s' : Server) → on_accept true throws p s ≡ some s' → s' ≡ s
unfolding on_accept
on_accept_failed throws p s s' e = ground (arith, e)

on_read_lem :
    (got : Option Bytes) (p : ℕ) (s : Server)
    → ((on_read got p s).accepts ≡ s.accepts)
      × ((on_read got p s).reads ≡ s.reads)
      × ((on_read got p s).printed ≡ s.printed ++ texts ((p, got) ∷ []))
unfolding on_read do_write
on_read_lem (some text) p s = (refl, refl, refl)
on_read_lem none p s = (refl, refl, sym (append-nil s.printed))

-- As long as no exception has ended the server: an accept is under way until one has failed, and
-- none after that; every worker that got a client is read from exactly once, its one read is under
-- way or has ended; and the texts of the reads without an error were printed in their order.
pub reads_once :
    {ps : List ℕ} {rs : List (ℕ × Option Bytes)} {fs : ℕ} {s : Server}
    → Serves ps rs fs s
    → (s.accepts + fs ≡ 1) × Perm (map reader rs ++ s.reads) ps × (s.printed ≡ texts rs)
unfolding new_server do_accept
reads_once Serves.here = (refl, Perm.refl [], refl)
reads_once (Serves.accepted {ps} {rs} {fs} {s} p n throws r one e) =
    let (accepting, read, printed) = reads_once r in
    let at = on_accept_lem throws p (record s { accepts = n }) _ e in
    subst
      (λ x.
        (x.accepts + fs ≡ 1)
        × Perm (map reader rs ++ x.reads) (ps ++ p ∷ [])
        × (x.printed ≡ texts rs))
      (sym at) (ground (arith, one, accepting), perm_start (map reader rs) s.reads p read, printed)
reads_once (Serves.refused {ps} {rs} {fs} {s} p n throws r one e) =
    let (accepting, read, printed) = reads_once r in
    let at = on_accept_failed throws p (record s { accepts = n }) _ e in
    subst
      (λ x. (x.accepts + suc fs ≡ 1) × Perm (map reader rs ++ x.reads) ps × (x.printed ≡ texts rs))
      (sym at) (ground (arith, one, accepting), read, printed)
reads_once (Serves.read {ps} {rs} {fs} {s} xs ys p got r split) =
    let (accepting, read, printed) = reads_once r in
    let (accepts, reads, more) = on_read_lem got p (record s { reads = xs ++ ys }) in
    (
      ap (λ n. n + fs) accepts ∙ accepting,
      subst (λ l. Perm (map reader (rs ++ (p, got) ∷ []) ++ l) ps) (sym reads)
          (subst (λ l. Perm (l ++ (xs ++ ys)) ps) (sym (map-append reader rs ((p, got) ∷ [])))
            (perm_end (map reader rs) xs ys p
              (subst (λ l. Perm (map reader rs ++ l) ps) split read))),
      more ∙ ap (λ l. l ++ texts ((p, got) ∷ [])) printed ∙ sym (texts-append rs ((p, got) ∷ [])),
    )
