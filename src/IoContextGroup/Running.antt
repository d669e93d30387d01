-- ===== src/IoContextGroup/Running.antt =====
-- io_context_group::run of tutorial/207.multithread_with_multiple_io_context.cpp: a thread for each
-- context, all of which it joins.
use learn_asio.Base.{
  some, ℕ, zero, suc, ◌+◌, ◌<◌, ◌≡◌, refl, sym, ap, ◌∙◌, Bool, true, false, ◌||◌, ◌⊎◌, List, [],
  ◌∷◌, ◌++◌, arith, ◌==◌, ==_iff, ◌≤◌, Bool-cases, inl, inr,
}
use learn_asio.IoContextGroup.{
  IoContextGroup, new_group, emplace_each, emplace_back, new_group-size, query,
}

-- While the threads run: the handlers and operations that each context has, the contexts whose run
-- has not returned, by the threads that wait for it, and the contexts that were stopped.
pub record Running : Type 0 where
  pub group : IoContextGroup
  pub work : ℕ → ℕ
  pub threads : List ℕ
  pub stopped : List ℕ

-- The contexts from `p` on, so many of them.
abbrev pub places : ℕ → ℕ → List ℕ
places p zero = []
places p (suc n) = p ∷ places (suc p) n

-- io_context_group::run up to the first join; `work` is what the contexts have to do.
unfoldable pub start_threads : (ℕ → ℕ) → IoContextGroup → Running
start_threads work g = record { group = g; work = work; threads = places 0 g.size; stopped = [] }

abbrev pub is_held : ℕ → List ℕ → Bool
is_held p [] = false
is_held p (q ∷ qs) = p == q || is_held p qs

-- A context gets work, or does some; the group is asked for a context; io_context::stop is called on
-- a context; a context's run returns, once it has no work and no guard, or was stopped.
pub data RunStep (r r' : Running) : Type 0 where
  worked : (work : ℕ → ℕ) → r' ≡ record r { work = work } → RunStep r r'
  queried :
      (p : ℕ) (g : IoContextGroup)
      → query r.group ≡ some (p, g)
      → r' ≡ record r { group = g }
      → RunStep r r'
  stop_called : (p : ℕ) → r' ≡ record r { stopped = p ∷ r.stopped } → RunStep r r'
  returned :
      (xs ys : List ℕ) (p : ℕ)
      → r.threads ≡ xs ++ p ∷ ys
      → ((r.work p ≡ 0) × (is_held p r.group.work_guards ≡ false)) ⊎ (is_held p r.stopped ≡ true)
      → r' ≡ record r { threads = xs ++ ys }
      → RunStep r r'

pub data Joins (r : Running) : Running → Type 0 where
  here : Joins r r
  next : {u v : Running} → Joins r u → RunStep u v → Joins r v

is_held-append : (p : ℕ) (xs ys : List ℕ) → is_held p (xs ++ ys) ≡ (is_held p xs || is_held p ys)
is_held-append p [] ys = refl
is_held-append p (x ∷ xs) ys = ground (arith, is_held-append p xs ys)

is_last :
    (q : ℕ) (g : IoContextGroup)
    → ((p : ℕ) → p < g.size → is_held p g.work_guards ≡ true)
    → q < suc g.size
    → (is_held q g.work_guards || is_held q (g.size ∷ [])) ≡ true
is_last q g h lt = elim (Bool-cases (q == g.size)) [
  | inl same ↦ ground (arith, same)
  | inr other ↦ ground (arith, h q (ground (arith, other, lt)))
]

is_held-emplace_each :
    (n p : ℕ) (g : IoContextGroup)
    → ((q : ℕ) → q < g.size → is_held q g.work_guards ≡ true)
    → p < g.size + n
    → is_held p (emplace_each n g).work_guards ≡ true
unfolding emplace_each
is_held-emplace_each zero p g h below = h p (omega (arith, below))
is_held-emplace_each (suc n) p g h below =
    is_held-emplace_each n p (emplace_back g)
      (λ q lt. is_held-append q g.work_guards (g.size ∷ []) ∙ is_last q g h lt)
      (omega (arith, below))

-- Every context of a new group has a guard.
new_group-is_held : (size p : ℕ) → p < size → is_held p (new_group size).work_guards ≡ true
unfolding new_group
new_group-is_held size p below =
    is_held-emplace_each size p (record { size = 0; work_guards = []; index = 0 })
      (λ q lt. absurd (omega (arith, lt))) (omega (arith, below))

is_held-places : (n k p : ℕ) → k ≤ p → p < k + n → is_held p (places k n) ≡ true
is_held-places zero k p from below = absurd (omega (arith, from, below))
is_held-places (suc n) k p from below = elim (Bool-cases (p == k)) [
  | inl same ↦ ground (arith, same)
  | inr other ↦
      let there = is_held-places n (suc k) p (ground (arith, other, from)) (omega (arith, below)) in
      ground (arith, there)
]

-- Without one of the threads, the others are still there.
is_held-middle :
    (p q : ℕ) (xs ys : List ℕ)
    → is_held p (xs ++ q ∷ ys) ≡ true
    → (p ≡ q) ⊎ (is_held p (xs ++ ys) ≡ true)
is_held-middle p q [] ys h = ground (arith, h, ==_iff p q)
is_held-middle p q (x ∷ xs) ys h = elim (Bool-cases (p == x)) [
  | inl same ↦ inr (ground (arith, same))
  | inr other ↦ elim (is_held-middle p q xs ys (ground (arith, h, other))) [
    | inl e ↦ inl e
    | inr there ↦ inr (ground (arith, there))
  ]
]

-- With its guard the thread of a context is still there when another one's run returns, and its own
-- returns after a stop only.
still_waits :
    (p q : ℕ) (xs ys : List ℕ) (r : Running)
    → is_held p r.group.work_guards ≡ true
    → r.threads ≡ xs ++ q ∷ ys
    → ((r.work q ≡ 0) × (is_held q r.group.work_guards ≡ false)) ⊎ (is_held q r.stopped ≡ true)
    → (is_held p r.threads ≡ true) ⊎ (is_held p r.stopped ≡ true)
    → (is_held p (xs ++ ys) ≡ true) ⊎ (is_held p r.stopped ≡ true)
still_waits p q xs ys r guard split why (inr stopped) = inr stopped
still_waits p q xs ys r guard split why (inl there) =
    elim (is_held-middle p q xs ys (ap (is_held p) (sym split) ∙ there)) [
      | inr rest ↦ inl rest
      | inl same ↦ ground (
        arith,
        why,
        guard,
        same,
        ap (λ n. is_held n r.stopped) same,
        ap (λ n. is_held n r.group.work_guards) same,
      )
    ]

-- A query moves the index on, and nothing else.
query-Kept :
    (g g' : IoContextGroup) (p : ℕ)
    → query g ≡ some (p, g')
    → (g'.size ≡ g.size) × (g'.work_guards ≡ g.work_guards)
unfolding query
query-Kept g g' p e = ground (arith, e)

-- Whatever work the contexts of a new group are given and do, however often the group is asked for
-- a context, and whichever of them are stopped: its contexts and guards stay as they were made, and
-- the run of each context has not returned, or that context was stopped. Each has a guard, which
-- nothing lets go of, so that without a stop io_context_group::run waits for all of them for ever.
pub Joins-threads :
    (size : ℕ) (work : ℕ → ℕ) {r : Running}
    → Joins (start_threads work (new_group size)) r
    → (r.group.size ≡ size)
      × (r.group.work_guards ≡ (new_group size).work_guards)
      × ((p : ℕ) → p < size → (is_held p r.threads ≡ true) ⊎ (is_held p r.stopped ≡ true))
unfolding start_threads
Joins-threads size work Joins.here = (
  (new_group-size size).0,
  refl,
  λ p below. inl (
      ap (λ n. is_held p (places 0 n)) (new_group-size size).0
      ∙ is_held-places size 0 p (omega arith) (omega (arith, below))),
)
Joins-threads size work (Joins.next {u = r} run (RunStep.worked more e)) =
    rw e (Joins-threads size work run)
Joins-threads size work (Joins.next {u = r} run (RunStep.queried p g' asked e)) =
    let (sized, same, waits) = Joins-threads size work run in
    let kept = query-Kept r.group g' p asked in rw e (kept.0 ∙ sized, kept.1 ∙ same, waits)
Joins-threads size work (Joins.next {u = r} run (RunStep.stop_called q e)) =
    let (sized, same, waits) = Joins-threads size work run in
    rw e (sized, same, λ p below. ground (arith, waits p below))
Joins-threads size work (Joins.next {u = r} run (RunStep.returned xs ys q split why e)) =
    let (sized, same, waits) = Joins-threads size work run in
    rw e (
      sized,
      same,
      λ p below.
          still_waits p q xs ys r (ap (is_held p) same ∙ new_group-is_held size p below) split why
            (waits p below),
    )
