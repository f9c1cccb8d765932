-- ===== src/Updates/Indexes.antt =====
-- Which indexes the lists of kernel_v6/updates.rs hold: the candidates for delivery, and the
-- targets of a cancel.
use strategy_core.Common.{
  ℕ, zero, suc, ◌+◌, ◌<◌, ◌≡◌, refl, inl, inr, Bool, true, false, not, ◌&&◌, ◌||◌, Option, none,
  some, List, [], ◌∷◌, ◌++◌, arith, Option-cases, is_some_and, ◌==◌,
}
use strategy_core.Wire.Orders.{RunnerEntryV6, is_place}
use strategy_core.Updates.Records.{Step, is_deferred}
use strategy_core.Updates.Delivery.{
  member, indexes, step_at, has_update, insert_sorted, sort_deferred, is_target, names, targets,
  candidates, deferrals_at,
}

pub member-append : (i : ℕ) (xs ys : List ℕ) → member i (xs ++ ys) ≡ (member i xs || member i ys)
member-append i [] ys = refl
member-append i (x ∷ xs) ys = ground (arith, member-append i xs ys)

-- A test of the step at an index, if there is one.
abbrev pub test_at : (ℕ → Step → Bool) → ℕ → Option Step → Bool
test_at p i o = is_some_and o (p i)

member-indexes_below :
    (p : ℕ → Step → Bool) (i k : ℕ) (steps : List Step)
    → i < k
    → member i (indexes p k steps) ≡ false
unfolding indexes
member-indexes_below p i k [] h = refl
member-indexes_below p i k (s ∷ steps) h = ground (arith, member-indexes_below p i (k + 1) steps)

member-indexes_from :
    (p : ℕ → Step → Bool) (i k m : ℕ) (steps : List Step)
    → i ≡ k + m
    → member i (indexes p k steps) ≡ test_at p i (step_at steps m)
unfolding indexes step_at
member-indexes_from p i k m [] e = refl
member-indexes_from p i k zero (s ∷ steps) e =
    ground (arith, member-indexes_below p i (k + 1) steps)
member-indexes_from p i k (suc m) (s ∷ steps) e =
    ground (arith, member-indexes_from p i (k + 1) m steps)

-- The indexes of the steps that pass a test.
pub member-indexes :
    (p : ℕ → Step → Bool) (i : ℕ) (steps : List Step)
    → member i (indexes p 0 steps) ≡ test_at p i (step_at steps i)
member-indexes p i steps = member-indexes_from p i 0 i steps (omega arith)

member-insert_sorted :
    (key : ℕ → ℕ) (i j : ℕ) (xs : List ℕ)
    → member i (insert_sorted key j xs) ≡ ((i == j) || member i xs)
unfolding insert_sorted
member-insert_sorted key i j [] = refl
member-insert_sorted key i j (x ∷ xs) = ground (arith, member-insert_sorted key i j xs)

member-sort_deferred :
    (key : ℕ → ℕ) (i : ℕ) (xs : List ℕ) → member i (sort_deferred key xs) ≡ member i xs
unfolding sort_deferred
member-sort_deferred key i [] = refl
member-sort_deferred key i (x ∷ xs) =
    ground
      (arith, member-insert_sorted key i x (sort_deferred key xs), member-sort_deferred key i xs)

-- The step at an index has an update.
abbrev pub updates_at : List Step → ℕ → Bool
updates_at steps i = is_some_and (step_at steps i) has_update

-- The candidates are the steps with an update.
pub member-candidates :
    (i : ℕ) (steps : List Step) → member i (candidates steps) ≡ updates_at steps i
unfolding candidates
member-candidates i steps = ground (
  arith,
  member-append i (sort_deferred (deferrals_at steps) (indexes (λ i. is_deferred) 0 steps))
      (indexes (λ i s. has_update s && not (is_deferred s)) 0 steps),
  member-sort_deferred (deferrals_at steps) i (indexes (λ i. is_deferred) 0 steps),
  member-indexes (λ i. is_deferred) i steps,
  member-indexes (λ i s. has_update s && not (is_deferred s)) i steps,
)

-- The step at an index compares a place, or a cancel.
abbrev pub places_at : List Step → ℕ → Bool
places_at steps i =
    is_some_and (step_at steps i) λ s. is_some_and s.previous λ entry. is_place entry.kind

is_target-place :
    (cancel : RunnerEntryV6) (i j : ℕ) (s : Step)
    → is_target cancel i j s ≡ true
    → (has_update s ≡ true)
      × (is_some_and s.previous (λ entry. is_place entry.kind) ≡ true)
      × (is_place cancel.kind ≡ false)
unfolding is_target names
is_target-place cancel i j s h = ground arith

-- A target has an update and is a place; what has a target is none.
pub targets-place :
    (steps : List Step) (c t : ℕ)
    → member t (targets steps c) ≡ true
    → (updates_at steps t ≡ true) × (places_at steps t ≡ true) × (places_at steps c ≡ false)
unfolding targets
targets-place steps c t h = elim (Option-cases (step_at steps c)) [
  | inl outside ↦ cc
  | inr (s, here) ↦ elim (Option-cases s.previous) [
    | inl adopted ↦ cc
    | inr (cancel, named) ↦
        ground
          (arith, member-indexes (is_target cancel c) t steps, at_target cancel (step_at steps t))
  ]
]
  where
    at_target :
        (cancel : RunnerEntryV6) (o : Option Step)
        → test_at (is_target cancel c) t o ≡ true
        → (is_some_and o has_update ≡ true)
          × (is_some_and o (λ s. is_some_and s.previous (λ entry. is_place entry.kind)) ≡ true)
          × (is_place cancel.kind ≡ false)
    at_target cancel none e = cc
    at_target cancel (some s) e = is_target-place cancel c t s e
