-- ===== src/EventLoop.antt =====
-- An io_context kept running by a work guard: tutorial/203.io_context_run_forever.cpp, which stops it
-- from a second thread, and tutorial/204.post_custom_functions_to_io_context.cpp, which posts to it.
use learn_asio.Base.{
  ℕ, suc, ◌≤◌, ◌≡◌, ◌⊎◌, inl, inr, refl, Bool, true, false, List, [], ◌∷◌, ◌++◌, arith, subst, ap,
  ◌∙◌, append-nil,
}
use learn_asio.Base.Perms.{perm_end}
use mathlib.Core.List.{Perm}
use mathlib.Core.List.Perm

-- Where main of 203 is, and the lines that it prints.
pub data MainPlace : Type 0 where
  in_run in_run_one at_end : MainPlace

pub data MainLine : Type 0 where
  restart continue_to_execution : MainLine

-- Whether the io_context is stopped, whether the thread still sleeps, where main is and what it has
-- printed.
pub record RunForever : Type 0 where
  pub is_stopped : Bool
  pub is_asleep : Bool
  pub place : MainPlace
  pub printed : List MainLine

unfoldable pub run_forever : RunForever
run_forever = record { is_stopped = false; is_asleep = true; place = in_run; printed = [] }

-- The thread after its sleep: io_context::stop.
unfoldable pub watchdog : RunForever → RunForever
watchdog s = record s { is_asleep = false; is_stopped = true }

-- main after io_context::run, up to run_one
unfoldable pub after_run : RunForever → RunForever
after_run s = record s {
  printed = s.printed ++ restart ∷ [];
  is_stopped = false;
  place = in_run_one;
}

-- main after run_one
unfoldable pub after_run_one : RunForever → RunForever
after_run_one s = record s { printed = s.printed ++ continue_to_execution ∷ []; place = at_end }

-- The states after a number of steps. Nothing is ever posted, and the guard counts as work: so run
-- and run_one return once the io_context is stopped, and not before.
pub data Forever : ℕ → RunForever → Type 0 where
  here : Forever 0 run_forever
  woken : {n : ℕ} {s : RunForever} → Forever n s → s.is_asleep ≡ true → Forever (suc n) (watchdog s)
  run_returned :
      {n : ℕ} {s : RunForever}
      → Forever n s
      → s.place ≡ in_run
      → s.is_stopped ≡ true
      → Forever (suc n) (after_run s)
  run_one_returned :
      {n : ℕ} {s : RunForever}
      → Forever n s
      → s.place ≡ in_run_one
      → s.is_stopped ≡ true
      → Forever (suc n) (after_run_one s)

-- The three states of a run.
abbrev IsForever : ℕ → RunForever → Type 0
IsForever n s =
    ((n ≡ 0) × (s ≡ record { is_stopped = false; is_asleep = true; place = in_run; printed = [] }))
    ⊎ (((n ≡ 1)
          × (s ≡ record { is_stopped = true; is_asleep = false; place = in_run; printed = [] }))
        ⊎ ((n ≡ 2)
            × (s ≡ record {
              is_stopped = false;
              is_asleep = false;
              place = in_run_one;
              printed = restart ∷ [];
            })))

Forever-IsForever : {n : ℕ} {s : RunForever} → Forever n s → IsForever n s
unfolding run_forever watchdog after_run after_run_one
Forever-IsForever Forever.here = inl (refl, refl)
Forever-IsForever (Forever.woken f w) = ground (arith, w, Forever-IsForever f)
Forever-IsForever (Forever.run_returned f p w) = ground (arith, p, w, Forever-IsForever f)
Forever-IsForever (Forever.run_one_returned f p w) = ground (arith, p, w, Forever-IsForever f)

-- What 204 posts, by the lines that they print.
pub data Posted : Type 0 where
  from_main_thread from_another_thread : Posted

pub record Posting : Type 0 where
  pub pending : List Posted
  pub printed : List Posted

-- main of 204 up to io_context::run
unfoldable pub posting : Posting
posting = record { pending = from_main_thread ∷ from_another_thread ∷ []; printed = [] }

-- The states while io_context::run runs one of the pending functions after the other; the guard is
-- never given up, so it does not return.
pub data Posts : Posting → Type 0 where
  here : Posts posting
  called :
      {s : Posting}
      → Posts s
      → (x : Posted) (before after : List Posted) → s.pending ≡ before ++ x ∷ after
      → Posts (record { pending = before ++ after; printed = s.printed ++ x ∷ [] })

-- The program of 203 takes two steps at most, and never prints its second line: once it has taken
-- two, it waits in run_one for good, with nothing left that could stop the io_context.
pub Forever-hangs :
    {n : ℕ} {s : RunForever}
    → Forever n s
    → (n ≤ 2)
      × ((s.printed ≡ []) ⊎ (s.printed ≡ restart ∷ []))
      × (((s' : RunForever) × Forever (suc n) s')
          ⊎ ((n ≡ 2) × (s.place ≡ in_run_one) × (s.is_stopped ≡ false) × (s.is_asleep ≡ false)))
Forever-hangs {n} {s} f =
    let v = Forever-IsForever f in
    (
      ground (arith, v),
      ground (arith, v),
      elim v [
        | inl (first, e) ↦ inl (watchdog s, Forever.woken f (ground (arith, e)))
        | inr (inl (second, e)) ↦
            inl (after_run s, Forever.run_returned f (ground (arith, e)) (ground (arith, e)))
        | inr (inr (third, e)) ↦
            inr (third, ground (arith, e), ground (arith, e), ground (arith, e))
      ],
    )

Posts-Perm :
    {s : Posting}
    → Posts s
    → Perm (s.printed ++ s.pending) (from_main_thread ∷ from_another_thread ∷ [])
unfolding posting
Posts-Perm Posts.here = Perm.refl (from_main_thread ∷ from_another_thread ∷ [])
Posts-Perm (Posts.called {s} p x before after e) = perm_end s.printed before after x (
    subst (λ l. Perm (s.printed ++ l) (from_main_thread ∷ from_another_thread ∷ [])) e
      (Posts-Perm p))

-- While the program of 204 runs, another function is called, or each of the two posted ones has
-- printed its line once.
pub Posts-all :
    {s : Posting}
    → Posts s
    → ((s' : Posting) × (x : Posted) × Posts s' × (s'.printed ≡ s.printed ++ x ∷ []))
      ⊎ Perm s.printed (from_main_thread ∷ from_another_thread ∷ [])
Posts-all {s} p = go s.pending refl
  where
    go :
        (l : List Posted)
        → s.pending ≡ l
        → ((s' : Posting) × (x : Posted) × Posts s' × (s'.printed ≡ s.printed ++ x ∷ []))
          ⊎ Perm s.printed (from_main_thread ∷ from_another_thread ∷ [])
    go [] e = inr (
        subst (λ l. Perm l (from_main_thread ∷ from_another_thread ∷ []))
          (ap (λ l. s.printed ++ l) e ∙ append-nil s.printed) (Posts-Perm p))
    go (x ∷ l) e =
        inl
          (record { pending = l; printed = s.printed ++ x ∷ [] }, x, Posts.called p x [] l e, refl)
