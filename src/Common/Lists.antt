-- ===== src/Common/Lists.antt =====
-- Lists measured by native numbers, Boolean searches, and predicates by recursion.
use Prim.Native.Nat.{ℕ, zero, suc, ◌+◌, ◌≤◌}
use Prim.Native.String.{String}
use mathlib.Core.Path.{◌≡◌, subst}
use mathlib.Core.Bool.{Bool, true, false, ◌||◌}
use mathlib.Core.List.{List, [], ◌∷◌, ◌++◌}
use mathlib.Core.Option.{Option, none, some}
use mathlib.Core.Logic.{◌⊎◌, inl, inr}
use native.Mathlib.Omega.{arith}
use text.Mathlib.Text.{◌==◌ as str_eq}
use text.Mathlib.TextEquality.{eq_iff}
use strategy_core.Common.Tests.{if◌then◌else◌, or_else, Option-cases, Bool-cases}

module _ {ℓ} {A : Type ℓ} where
  abbrev pub length : List A → ℕ
  length [] = 0
  length (x ∷ xs) = suc (length xs)

  pub length-append : (xs ys : List A) → length (xs ++ ys) ≡ length xs + length ys
  length-append [] ys = omega arith
  length-append (x ∷ xs) ys = omega (arith, length-append xs ys)

  abbrev pub filter : (A → Bool) → List A → List A
  filter p [] = []
  filter p (x ∷ xs) = let rest = filter p xs in if p x then x ∷ rest else rest

  -- `iter().filter(p).count()`
  abbrev pub count_if : (A → Bool) → List A → ℕ
  count_if p [] = 0
  count_if p (x ∷ xs) = let rest = count_if p xs in if p x then suc rest else rest

  abbrev pub any : (A → Bool) → List A → Bool
  any p [] = false
  any p (x ∷ xs) = p x || any p xs

  -- `iter().find(p)`
  abbrev pub find : (A → Bool) → List A → Option A
  find p [] = none
  find p (x ∷ xs) = if p x then some x else find p xs

  abbrev pub concat : List (List A) → List A
  concat [] = []
  concat (xs ∷ xss) = xs ++ concat xss

module _ {ℓ} {A : Type ℓ} where
  pub count_if-le-length : (p : A → Bool) (xs : List A) → count_if p xs ≤ length xs
  count_if-le-length p [] = omega arith
  count_if-le-length p (x ∷ xs) = ground (arith, count_if-le-length p xs)

  pub count_if-append :
      (p : A → Bool) (xs ys : List A) → count_if p (xs ++ ys) ≡ count_if p xs + count_if p ys
  count_if-append p [] ys = omega arith
  count_if-append p (x ∷ xs) ys = ground (arith, count_if-append p xs ys)

module _ {ℓ κ} {A : Type ℓ} where
  abbrev pub All : (A → Type κ) → List A → Type κ
  All P [] = Unit
  All P (x ∷ xs) = P x × All P xs

  pub All-append : (P : A → Type κ) (xs ys : List A) → All P xs → All P ys → All P (xs ++ ys)
  All-append P [] ys h k = k
  All-append P (x ∷ xs) ys h k = (h.0, All-append P xs ys h.1 k)

-- Membership by recursion, which the tactics open.
abbrev pub Elem : {A : Type 0} → A → List A → Type 0
Elem a [] = ⊥
Elem a (x ∷ xs) = (a ≡ x) ⊎ Elem a xs

-- A map collected from a list of items by a text key: a later item replaces an earlier one.
abbrev pub get {ℓ} : {A : Type ℓ} → (A → String) → String → List A → Option A
get key k [] = none
get key k (x ∷ xs) = or_else (get key k xs) (if str_eq (key x) k then some x else none)

-- `BTreeSet<String>::contains`
abbrev pub contains : String → List String → Bool
contains k [] = false
contains k (x ∷ xs) = str_eq x k || contains k xs

module _ {A : Type 0} where
  pub get-All :
      (P : A → Type 0) (key : A → String) (k : String) (xs : List A) (x : A)
      → All P xs
      → get key k xs ≡ some x
      → P x
  get-All P key k [] x h e = cc
  get-All P key k (y ∷ ys) x h e = elim (Option-cases (get key k ys)) [
    | inr (z, later) ↦ get-All P key k ys x h.1 (ground arith)
    | inl missing ↦ elim (Bool-cases (str_eq (key y) k)) [
      | inl hit ↦ subst P (ground arith) h.0
      | inr miss ↦ absurd (ground arith)
    ]
  ]

-- A text that a list of good texts holds is good.
pub any-All :
    (p : String → Bool) (k : String) (xs : List String)
    → All (λ x. p x ≡ true) xs
    → any (λ x. str_eq x k) xs ≡ true
    → p k ≡ true
any-All p k [] h e = cc
any-All p k (x ∷ xs) h e = elim (Bool-cases (str_eq x k)) [
  | inl hit ↦ subst (λ y. p y ≡ true) ((eq_iff x k).0 hit) h.0
  | inr miss ↦ any-All p k xs h.1 (ground arith)
]

abbrev pub take {ℓ} : {A : Type ℓ} → ℕ → List A → List A
take zero xs = []
take (suc n) [] = []
take (suc n) (x ∷ xs) = x ∷ take n xs

abbrev pub drop {ℓ} : {A : Type ℓ} → ℕ → List A → List A
drop zero xs = xs
drop (suc n) [] = []
drop (suc n) (x ∷ xs) = drop n xs
