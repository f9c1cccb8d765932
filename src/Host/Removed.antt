-- ===== src/Host/Removed.antt =====
-- The last of a list's items that pass a test, removed, and lists filtered twice, for `fit_result` in
-- native/strategy_core_v3/src/kernel_v6.rs.
use strategy_core.Common.{
  ℕ, zero, suc, ◌≤◌, ◌≡◌, refl, ap, subst, Bool, true, false, not, Option, none, some, List, [],
  ◌∷◌, ◌++◌, length, filter, count_if, take, drop, arith, if◌then◌else◌, Option-cases, Bool-cases,
  inl, inr,
}
use strategy_core.Host.Fit.{remove_last}

module _ {A : Type 0} where
  pub remove_last-none : (p : A → Bool) (xs : List A) → remove_last p xs ≡ none → count_if p xs ≡ 0
  unfolding remove_last
  remove_last-none p [] e = refl
  remove_last-none p (y ∷ xs) e = elim (Option-cases (remove_last p xs)) [
    | inl gone ↦ ground (arith, remove_last-none p xs gone)
    | inr ((found, rest), there) ↦ absurd (ground arith)
  ]

  pub remove_last-some :
      (p : A → Bool) (xs ys : List A) (x : A)
      → remove_last p xs ≡ some (x, ys)
      → count_if p xs ≡ suc (count_if p ys)
  unfolding remove_last
  remove_last-some p [] ys x e = cc
  remove_last-some p (y ∷ xs) ys x e = elim (Option-cases (remove_last p xs)) [
    | inl gone ↦ ground (arith, remove_last-none p xs gone)
    | inr ((found, rest), there) ↦
        let later = remove_last-some p xs rest found there in
        let same : y ∷ rest ≡ ys = ground arith in
        subst (λ zs. count_if p (y ∷ xs) ≡ suc (count_if p zs)) same (ground (arith, later))
  ]

  pub last_one :
      (p : A → Bool) (y x : A) (xs ys : List A)
      → ◌≡◌ {A = Option (A × List A)} (if p y then some (y, xs) else none) (some (x, ys))
      → (p y ≡ true) × (xs ≡ ys)
  last_one p y x xs ys e = elim (Bool-cases (p y)) [
    | inl hit ↦ (hit, ground arith)
    | inr miss ↦ absurd (ground arith)
  ]

  -- A removed item passes the test, so those that do not are left.
  pub remove_last-others :
      (p q : A → Bool) (excluded : (x : A) → p x ≡ true → q x ≡ false) (xs ys : List A) (x : A)
      → remove_last p xs ≡ some (x, ys)
      → filter q ys ≡ filter q xs
  unfolding remove_last
  remove_last-others p q excluded [] ys x e = cc
  remove_last-others p q excluded (y ∷ xs) ys x e = elim (Option-cases (remove_last p xs)) [
    | inl gone ↦
        let (hit, same) = last_one p y x xs ys (ground arith) in
        subst (λ zs. filter q zs ≡ filter q (y ∷ xs)) same (ground (arith, excluded y hit))
    | inr ((found, rest), there) ↦
        let later = remove_last-others p q excluded xs rest found there in
        let same : y ∷ rest ≡ ys = ground arith in
        subst (λ zs. filter q zs ≡ filter q (y ∷ xs)) same
          (ap (λ (zs : List A). if q y then y ∷ zs else zs) later)
  ]

  pub take-drop : (n : ℕ) (xs : List A) → xs ≡ take n xs ++ drop n xs
  take-drop zero xs = refl
  take-drop (suc n) [] = refl
  take-drop (suc n) (x ∷ xs) = ap (λ ys. x ∷ ys) (take-drop n xs)

  pub length-take : (n : ℕ) (xs : List A) → n ≤ length xs → length (take n xs) ≡ n
  length-take zero xs h = refl
  length-take (suc n) [] h = omega (arith, h)
  length-take (suc n) (x ∷ xs) h = omega (arith, length-take n xs (omega (arith, h)))

  pub filter-filter :
      (p q : A → Bool) (excluded : (x : A) → p x ≡ true → q x ≡ false) (xs : List A)
      → (filter q (filter (λ x. not (p x)) xs) ≡ filter q xs)
        × (count_if q (filter (λ x. not (p x)) xs) ≡ count_if q xs)
  filter-filter p q excluded [] = (refl, refl)
  filter-filter p q excluded (x ∷ xs) =
      let later = filter-filter p q excluded xs in
      elim (Bool-cases (p x)) [
        | inl hit ↦ let other = excluded x hit in (ground (arith, later.0), ground (arith, later.1))
        | inr miss ↦ (ground (arith, later.0), ground (arith, later.1))
      ]

  pub filter-append_one :
      (q : A → Bool) (xs : List A) (x : A) → q x ≡ false → filter q (xs ++ x ∷ []) ≡ filter q xs
  filter-append_one q [] x h = rw h refl
  filter-append_one q (y ∷ xs) x h =
      ap (λ (zs : List A). if q y then y ∷ zs else zs) (filter-append_one q xs x h)

  pub count_if-append_one :
      (q : A → Bool) (xs : List A) (x : A) → q x ≡ false → count_if q (xs ++ x ∷ []) ≡ count_if q xs
  count_if-append_one q [] x h = rw h refl
  count_if-append_one q (y ∷ xs) x h =
      ap (λ n. if q y then suc n else n) (count_if-append_one q xs x h)
