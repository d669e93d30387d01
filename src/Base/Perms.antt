-- ===== src/Base/Perms.antt =====
-- What has ended and what is still under way, taken together, as a permutation of all that was
-- started: how the two move when something starts and when something ends.
use mathlib.Core.List.{List, [], ◌∷◌, ◌++◌, append_assoc, Perm, perm_middle}
use mathlib.Core.List.Perm
use mathlib.Core.Path.{sym, subst}

module _ {ℓ} {A : Type ℓ} where
  pub perm_start :
      {zs : List A} (ended pending : List A) (x : A)
      → Perm (ended ++ pending) zs
      → Perm (ended ++ (pending ++ x ∷ [])) (zs ++ x ∷ [])
  perm_start {zs} ended pending x p =
      subst (λ l. Perm l (zs ++ x ∷ [])) (append_assoc ended pending (x ∷ []))
        (Perm.append_right (x ∷ []) p)

  pub perm_end :
      {zs : List A} (ended xs ys : List A) (x : A)
      → Perm (ended ++ (xs ++ x ∷ ys)) zs
      → Perm ((ended ++ x ∷ []) ++ (xs ++ ys)) zs
  perm_end {zs} ended xs ys x p =
      subst (λ l. Perm l zs) (sym (append_assoc ended (x ∷ []) (xs ++ ys)))
        (Perm.trans (Perm.append_left ended (Perm.symm (perm_middle xs ys))) p)
