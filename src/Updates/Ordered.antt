-- ===== src/Updates/Ordered.antt =====
-- The delivery order (`Derived::delivery_order` in kernel_v6/updates.rs): each update once, and a
-- cancel's after those of its targets.
use strategy_core.Common.{
  ℕ, suc, ◌+◌, ◌≤◌, ◌≡◌, refl, sym, ◌∙◌, inl, inr, Bool, true, false, ◌||◌, List, [], ◌∷◌, ◌++◌,
  arith, Bool-cases, concat, ◌==◌, if◌then◌else◌, All,
}
use mathlib.Core.List.{append_assoc}
use strategy_core.Updates.Records.{Step}
use strategy_core.Updates.Delivery.{member, pull, group, targets, candidates, delivery_order}
use strategy_core.Updates.Indexes.{updates_at, member-candidates, targets-place}

-- How often an index is delivered.
abbrev pub times : ℕ → List ℕ → ℕ
times i [] = 0
times i (j ∷ js) = let rest = times i js in if i == j then suc rest else rest

times-append : (i : ℕ) (xs ys : List ℕ) → times i (xs ++ ys) ≡ times i xs + times i ys
times-append i [] ys = omega arith
times-append i (x ∷ xs) ys = ground (arith, times-append i xs ys)

-- `pull` takes each index that is not placed once, and places it.
pull-times :
    (i : ℕ) (placed ts : List ℕ)
    → (times i (pull placed ts).0 ≡ (if member i placed then 0 else if member i ts then 1 else 0))
      × (member i (pull placed ts).1 ≡ (member i placed || member i ts))
unfolding pull
pull-times i placed [] = ground arith
pull-times i placed (t ∷ ts) = elim (Bool-cases (member t placed)) [
  | inl old ↦ rw (old, pull) (ground (arith, pull-times i placed ts))
  | inr new ↦ rw (new, pull) (ground (arith, pull-times i (t ∷ placed) ts))
]

-- What the loop delivers of an index, from the indexes that are placed and those to come.
record Delivers (i : ℕ) (steps : List Step) (placed is : List ℕ) : Type 0 where
  spent : member i placed ≡ true → times i (concat (group steps placed is)) ≡ 0
  once : times i (concat (group steps placed is)) ≤ 1
  reached :
      member i placed ≡ false → member i is ≡ true → times i (concat (group steps placed is)) ≡ 1
  updated :
      All (λ j. updates_at steps j ≡ true) is
      → 1 ≤ times i (concat (group steps placed is))
      → updates_at steps i ≡ true

targets_self : (steps : List Step) (j : ℕ) → member j (targets steps j) ≡ false
targets_self steps j = elim (Bool-cases (member j (targets steps j))) [
  | inl self ↦ ground (arith, targets-place steps j j self)
  | inr other ↦ other
]

-- The unit of a candidate, and what is placed after it.
abbrev unit_of : List Step → List ℕ → ℕ → List ℕ
unit_of steps placed j = (pull placed (targets steps j)).0 ++ j ∷ []

abbrev placed_after : List Step → List ℕ → ℕ → List ℕ
placed_after steps placed j = j ∷ (pull placed (targets steps j)).1

unit-times :
    (i j : ℕ) (steps : List Step) (placed : List ℕ)
    → member j placed ≡ false
    → (times i (unit_of steps placed j)
        ≡ (if member i placed then 0 else if (i == j) || member i (targets steps j) then 1 else 0))
      × (member i (placed_after steps placed j)
          ≡ (member i placed || ((i == j) || member i (targets steps j))))
unit-times i j steps placed new = ground (
  arith,
  times-append i (pull placed (targets steps j)).0 (j ∷ []),
  pull-times i placed (targets steps j),
  targets_self steps j,
)

group-Delivers : (i : ℕ) (steps : List Step) (placed is : List ℕ) → Delivers i steps placed is
unfolding group
group-Delivers i steps placed [] = record {
  spent = λ h. refl;
  once = omega arith;
  reached = λ h k. cc;
  updated = λ h k. absurd (omega arith);
}
group-Delivers i steps placed (j ∷ is) = elim (Bool-cases (member j placed)) [
  | inl old ↦
      let d = group-Delivers i steps placed is in
      record {
        spent = λ h. rw (old, group) (d.spent h);
        once = rw (old, group) d.once;
        reached = λ h k. rw (old, group) (d.reached h (ground arith));
        updated = λ h k. d.updated h.1 (rw (old, group) at k);
      }
  | inr new ↦
      let d = group-Delivers i steps (placed_after steps placed j) is in
      let u = unit-times i j steps placed new in
      let a =
        times-append i (unit_of steps placed j)
          (concat (group steps (placed_after steps placed j) is)) in
      record {
        spent = λ h. rw (new, group) (ground (arith, d.spent, u, a, h));
        once = rw (new, group) (ground (arith, d.spent, d.once, u, a));
        reached = λ h k. rw (new, group) (ground (arith, d.spent, d.once, d.reached, u, a));
        updated = λ h k. elim (Bool-cases (member i (targets steps j))) [
          | inl target ↦ (targets-place steps j i target).0
          | inr other ↦
              let k' = rw (new, group) at k in ground (arith, h.0, d.updated h.1, u, a, k')
        ];
      }
]

All-of_member : (P : ℕ → Type 0) (xs : List ℕ) → ((i : ℕ) → member i xs ≡ true → P i) → All P xs
All-of_member P [] h = tt
All-of_member P (x ∷ xs) h = (h x (ground arith), All-of_member P xs (λ i m. h i (ground arith)))

candidates-All : (steps : List Step) → All (λ j. updates_at steps j ≡ true) (candidates steps)
candidates-All steps =
    All-of_member (λ j. updates_at steps j ≡ true) (candidates steps)
      (λ i m. sym (member-candidates i steps) ∙ m)

-- The delivery order holds the index of each step with an update exactly once, and no other index.
pub times-delivery_order :
    (i : ℕ) (steps : List Step)
    → times i (concat (delivery_order steps)) ≡ (if updates_at steps i then 1 else 0)
unfolding delivery_order
times-delivery_order i steps =
    let d = group-Delivers i steps [] (candidates steps) in
    let total = candidates-All steps in
    ground (arith, d.once, d.reached refl, d.updated total, member-candidates i steps)

-- `t` comes before the first `c`.
abbrev pub before : ℕ → ℕ → List ℕ → Bool
before t c [] = false
before t c (x ∷ xs) =
    let rest = before t c xs in if x == t then true else if x == c then false else rest

before-append :
    (t c : ℕ) (xs ys : List ℕ)
    → member c xs ≡ false
    → before t c (xs ++ ys) ≡ (member t xs || before t c ys)
before-append t c [] ys h = refl
before-append t c (x ∷ xs) ys h = ground (arith, before-append t c xs ys)

times-member : (i : ℕ) (xs : List ℕ) → times i xs ≡ 0 → member i xs ≡ false
times-member i [] h = refl
times-member i (x ∷ xs) h = ground (arith, times-member i xs)

member-times : (i : ℕ) (xs : List ℕ) → 1 ≤ times i xs → member i xs ≡ true
member-times i [] h = absurd (omega arith)
member-times i (x ∷ xs) h = ground (arith, member-times i xs)

module _ (steps : List Step) (t c : ℕ) (target : member t (targets steps c) ≡ true) where
  -- A cancel with a target is no target.
  not_target : (j : ℕ) → member c (targets steps j) ≡ false
  not_target j = elim (Bool-cases (member c (targets steps j))) [
    | inl wrong ↦ ground (arith, targets-place steps c t target, targets-place steps j c wrong)
    | inr other ↦ other
  ]

  -- In a unit `t` comes before `c`, unless both come later.
  unit-before :
      (placed : List ℕ) (j : ℕ) (rest : List ℕ)
      → member c placed ≡ false
      → member t placed ≡ false
      → (member c (placed_after steps placed j) ≡ false
          → member t (placed_after steps placed j) ≡ false
          → (j == c) ≡ false
          → before t c rest ≡ true)
      → before t c (unit_of steps placed j ++ rest) ≡ true
  unit-before placed j rest pc pt later =
      let unit = (pull placed (targets steps j)).0 in
      let c_times = pull-times c placed (targets steps j) in
      let t_times = pull-times t placed (targets steps j) in
      let no_c : member c unit ≡ false =
        times-member c unit (ground (arith, c_times, not_target j)) in
      rw (append_assoc unit (j ∷ []) rest, before-append t c unit (j ∷ rest) no_c)
        (elim (Bool-cases (member t (targets steps j))) [
          | inl aimed ↦ ground (arith, member-times t unit (ground (arith, t_times)))
          | inr other ↦ elim (Bool-cases (j == c)) [
            | inl same ↦ let e : j ≡ c = ground arith in cc
            | inr differs ↦ elim (Bool-cases (j == t)) [
              | inl now ↦ ground arith
              | inr neither ↦
                  let l =
                    later (ground (arith, c_times, not_target j)) (ground (arith, t_times))
                      differs in
                  ground arith
            ]
          ]
        ])

  group-before :
      (placed is : List ℕ)
      → member c placed ≡ false
      → member t placed ≡ false
      → member c is ≡ true
      → before t c (concat (group steps placed is)) ≡ true
  unfolding group
  group-before placed [] pc pt h = cc
  group-before placed (j ∷ is) pc pt h = elim (Bool-cases (member j placed)) [
    | inl old ↦ rw (old, group) (group-before placed is pc pt (ground arith))
    | inr new ↦
        rw (new, group)
          (unit-before placed j (concat (group steps (placed_after steps placed j) is)) pc pt
            (λ pc' pt' other. group-before (placed_after steps placed j) is pc' pt' (ground arith)))
  ]

-- A step with an update that a cancel with an update names as its target is delivered before the
-- cancel.
pub before-delivery_order :
    (steps : List Step) (t c : ℕ)
    → member t (targets steps c) ≡ true
    → updates_at steps c ≡ true
    → before t c (concat (delivery_order steps)) ≡ true
unfolding delivery_order
before-delivery_order steps t c target updated =
    group-before steps t c target [] (candidates steps) refl refl
      (member-candidates c steps ∙ updated)
