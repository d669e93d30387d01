-- ===== src/IoContextGroup.antt =====
-- class io_context_group of tutorial/207.multithread_with_multiple_io_context.cpp: its
-- constructor, and how query hands the contexts out. A context is its place in io_contexts_.
pub mod Running
use native.Mathlib.Nat.{mul-add-mod_self_right, suc-mul, mod-eq_of_lt}
use learn_asio.Base.{
  ℕ, zero, suc, ◌+◌, ◌%◌, ◌*◌, ◌^◌, ◌≤◌, ◌<◌, ◌≡◌, refl, ap, ◌∙◌, Option, none, some, List, [], ◌∷◌,
  ◌++◌, arith, length, ◌==◌, ltb, Bool-cases, inl, inr, if◌then◌else◌,
}

-- `size` is the length of io_contexts_, and work_guards_ gives the context of each guard.
pub record IoContextGroup : Type 0 where
  pub size : ℕ
  pub work_guards : List ℕ
  pub index : ℕ

-- One round of the constructor's loop: a context, and a guard of io_contexts_.back().
abbrev pub emplace_back : IoContextGroup → IoContextGroup
emplace_back g = record g { size = suc g.size; work_guards = g.work_guards ++ g.size ∷ [] }

-- That loop, for so many rounds.
unfoldable pub emplace_each : ℕ → IoContextGroup → IoContextGroup
emplace_each zero g = g
emplace_each (suc n) g = emplace_each n (emplace_back g)

-- io_context_group::io_context_group
unfoldable pub new_group : ℕ → IoContextGroup
unfolding emplace_each
new_group size = emplace_each size (record { size = 0; work_guards = []; index = 0 })

-- io_context_group::query, with the place that it uses; `none` is the division by zero of an empty
-- group. index is a size_t of 64 bits.
unfoldable pub query : IoContextGroup → Option (ℕ × IoContextGroup)
query g =
    if g.size == 0
    then none
    else some (g.index % g.size, record g { index = (g.index + 1) % 2 ^ 64 })

-- The places that queries gave, the last one first, and the group after them.
pub data Queries (size : ℕ) : List ℕ → IoContextGroup → Type 0 where
  here : Queries size [] (new_group size)
  next :
      {ps : List ℕ} {g g' : IoContextGroup} (p : ℕ)
      → Queries size ps g
      → query g ≡ some (p, g')
      → Queries size (p ∷ ps) g'

-- How often the context `p` was given.
abbrev pub uses : ℕ → List ℕ → ℕ
uses p [] = 0
uses p (q ∷ qs) = uses p qs + (if q == p then 1 else 0)

-- `rounds` full rounds, and the first `q` contexts once more.
record IsRound (size rounds q : ℕ) (ps : List ℕ) (g : IoContextGroup) : Type 0 where
  sized : g.size ≡ size
  counted : g.index ≡ length ps
  split : length ps ≡ rounds * size + q
  short : q < size
  used : (p : ℕ) → p < size → uses p ps ≡ rounds + (if ltb p q then 1 else 0)

query_lem :
    (g g' : IoContextGroup) (p : ℕ)
    → query g ≡ some (p, g')
    → (p ≡ g.index % g.size) × (g'.size ≡ g.size) × (g'.index ≡ (g.index + 1) % 2 ^ 64)
unfolding query
query_lem g g' p e = ground (arith, e)

-- The constructor's loop adds so many contexts, and nothing was queried.
emplace_each-size :
    (n : ℕ) (g : IoContextGroup)
    → ((emplace_each n g).size ≡ g.size + n) × ((emplace_each n g).index ≡ g.index)
unfolding emplace_each
emplace_each-size zero g = (omega arith, refl)
emplace_each-size (suc n) g =
    let more = emplace_each-size n (emplace_back g) in (omega (arith, more.0), more.1)

pub new_group-size : (n : ℕ) → ((new_group n).size ≡ n) × ((new_group n).index ≡ 0)
unfolding new_group
new_group-size n =
    let made = emplace_each-size n (record { size = 0; work_guards = []; index = 0 }) in
    (omega (arith, made.0), made.1)

-- The place of a query in its round.
place : (size rounds q k : ℕ) → k ≡ rounds * size + q → q < size → k % size ≡ q
place size rounds q k split short =
    ap (λ n. n % size) split ∙ mul-add-mod_self_right rounds size q ∙ mod-eq_of_lt short

IsRound-next :
    (size rounds q p : ℕ) (ps : List ℕ) (g g' : IoContextGroup)
    → IsRound size rounds q ps g
    → query g ≡ some (p, g')
    → suc (length ps) < 2 ^ 64
    → (r : ℕ) × (q' : ℕ) × IsRound size r q' (p ∷ ps) g'
IsRound-next size rounds q p ps g g' v e few =
    let f = query_lem g g' p e in
    let here : p ≡ q =
      f.0
      ∙ ap (λ n. n % g.size) v.counted
      ∙ ap (λ n. length ps % n) v.sized
      ∙ place size rounds q (length ps) v.split v.short in
    let index : g'.index ≡ suc (length ps) = ground (arith, f.2, v.counted, few) in
    elim (Bool-cases (suc q == size)) [
      | inl full ↦ (
        suc rounds,
        0,
        record {
          sized = f.1 ∙ v.sized;
          counted = index;
          split = ground (arith, v.split, full, suc-mul rounds size);
          short = ground (arith, v.short);
          used = λ x h. ground (arith, v.used x h, h, here, full);
        },
      )
      | inr more ↦ (
        rounds,
        suc q,
        record {
          sized = f.1 ∙ v.sized;
          counted = index;
          split = ground (arith, v.split);
          short = ground (arith, v.short, more);
          used = λ x h. ground (arith, v.used x h, h, here);
        },
      )
    ]

Queries-IsRound :
    {size : ℕ} {ps : List ℕ} {g : IoContextGroup}
    → 0 < size
    → Queries size ps g
    → length ps < 2 ^ 64
    → (r : ℕ) × (q : ℕ) × IsRound size r q ps g
Queries-IsRound {size} some_of Queries.here few = (
  0,
  0,
  record {
    sized = (new_group-size size).0;
    counted = (new_group-size size).1;
    split = omega arith;
    short = some_of;
    used = λ x h. ground arith;
  },
)
Queries-IsRound {size} some_of (Queries.next {ps} {g} {g'} p qs e) few =
    let (r, q, v) = Queries-IsRound some_of qs (omega (arith, few)) in
    IsRound-next size r q p ps g g' v e few

-- As long as fewer than 2 ^ 64 queries were made of a group that is not empty, no context was given
-- more than once oftener than another one.
pub query_fair :
    {size : ℕ} {ps : List ℕ} {g : IoContextGroup} (p q : ℕ)
    → Queries size ps g
    → length ps < 2 ^ 64
    → p < size
    → q < size
    → uses p ps ≤ suc (uses q ps)
query_fair p q qs few hp hq =
    let (r, k, v) = Queries-IsRound (omega (arith, hp)) qs few in
    ground (arith, v.used p hp, v.used q hq)
