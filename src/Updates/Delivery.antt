-- ===== src/Updates/Delivery.antt =====
-- The order in which a decision's updates are delivered (`Derived::delivery_order`, `targets`,
-- `entries` and `reinstatable_live` in kernel_v6/updates.rs). A `BTreeSet` of indexes is a list.
use strategy_core.Common.{
  ℕ, zero, suc, ◌+◌, Bool, true, false, not, ◌&&◌, ◌||◌, Option, none, some, List, [], ◌∷◌, ◌++◌,
  count_if, is_some, is_some_and, ltb, leb, ◌==◌, if◌then◌else◌, opt_str_eq,
}
use strategy_core.Wire.Orders.{RunnerEntryV6, BrokerCommandKindV6, is_place, is_live}
use strategy_core.Updates.Records.{Step, is_deferred, deferrals}

abbrev pub member : ℕ → List ℕ → Bool
member i [] = false
member i (j ∷ js) = (i == j) || member i js

-- The indexes from `i` of the steps that pass a test, which may read the index.
unfoldable pub indexes : (ℕ → Step → Bool) → ℕ → List Step → List ℕ
indexes p i [] = []
indexes p i (s ∷ steps) = let rest = indexes p (i + 1) steps in if p i s then i ∷ rest else rest

unfoldable pub step_at : List Step → ℕ → Option Step
step_at [] i = none
step_at (s ∷ steps) zero = some s
step_at (s ∷ steps) (suc i) = step_at steps i

abbrev pub has_update : Step → Bool
has_update s = is_some s.update

-- The deferrals of the step at an index.
abbrev pub deferrals_at : List Step → ℕ → ℕ
deferrals_at steps i = elim (step_at steps i) [ none ↦ 0 | some s ↦ deferrals s ]

-- `sort_by_key` by the deferrals, most first, then by the index: an insertion keeps the indexes of
-- equal deferrals in order, since they are inserted from the last to the first.
unfoldable pub insert_sorted : (ℕ → ℕ) → ℕ → List ℕ → List ℕ
insert_sorted key i [] = i ∷ []
insert_sorted key i (j ∷ js) =
    if leb (key j) (key i) then i ∷ j ∷ js else j ∷ insert_sorted key i js

unfoldable pub sort_deferred : (ℕ → ℕ) → List ℕ → List ℕ
unfolding insert_sorted
sort_deferred key [] = []
sort_deferred key (i ∷ is) = insert_sorted key i (sort_deferred key is)

-- `is_target` of the cancel at `index`: the step at `other` has an update of an order it names.
unfoldable pub names : BrokerCommandKindV6 → RunnerEntryV6 → ℕ → RunnerEntryV6 → ℕ → Bool
names BrokerCommandKindV6.place_order cancel index order other = false
names BrokerCommandKindV6.cancel_order cancel index order other =
    is_some cancel.client_order_id && opt_str_eq order.client_order_id cancel.client_order_id
names BrokerCommandKindV6.cancel_all_orders cancel index order other = ltb other index

unfoldable pub is_target : RunnerEntryV6 → ℕ → ℕ → Step → Bool
unfolding names
is_target cancel index other s =
    is_some_and s.previous
      λ order. is_some s.update && is_place order.kind && names cancel.kind cancel index order other

unfoldable pub targets : List Step → ℕ → List ℕ
unfolding indexes is_target step_at
targets steps index = elim (step_at steps index) [
  | none ↦ []
  | some s ↦ elim s.previous [ none ↦ [] | some cancel ↦ indexes (is_target cancel index) 0 steps ]
]

-- `targets.filter(|target| placed.insert(*target))`: the new ones, and the set with them.
unfoldable pub pull : List ℕ → List ℕ → List ℕ × List ℕ
pull placed [] = ([], placed)
pull placed (t ∷ ts) = elim (member t placed) [
  | true ↦ pull placed ts
  | false ↦ let (unit, placed') = pull (t ∷ placed) ts in (t ∷ unit, placed')
]

-- The loop of `delivery_order`.
unfoldable pub group : List Step → List ℕ → List ℕ → List (List ℕ)
unfolding pull targets
group steps placed [] = []
group steps placed (i ∷ is) = elim (member i placed) [
  | true ↦ group steps placed is
  | false ↦
      let (unit, placed') = pull placed (targets steps i) in
      (unit ++ i ∷ []) ∷ group steps (i ∷ placed') is
]

-- The steps in the order that the loop takes them: the deferred ones sorted, then the rest.
unfoldable pub candidates : List Step → List ℕ
unfolding indexes sort_deferred
candidates steps =
    sort_deferred (deferrals_at steps) (indexes (λ i. is_deferred) 0 steps)
    ++ indexes (λ i s. has_update s && not (is_deferred s)) 0 steps

unfoldable pub delivery_order : List Step → List (List ℕ)
unfolding group candidates
delivery_order steps = group steps [] (candidates steps)

abbrev pub kept_entry : Option RunnerEntryV6 → List RunnerEntryV6 → List RunnerEntryV6
kept_entry none rest = rest
kept_entry (some entry) rest = entry ∷ rest

-- `Derived::entries`
unfoldable pub entries : List Step → List RunnerEntryV6
entries [] = []
entries (s ∷ steps) = kept_entry s.next (entries steps)

-- `Derived::reinstatable_live`
unfoldable pub reinstatable_live : List Step → ℕ
reinstatable_live =
    count_if
      λ s. is_some s.update && is_some_and s.previous is_live && not (is_some_and s.next is_live)
