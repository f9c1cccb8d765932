-- ===== src/Updates/Evict.antt =====
-- The eviction of tombstones (the loop of `Derived::finalize` in kernel_v6/updates.rs): it ends
-- within its fuel, at the bound, and takes tombstones only.
use strategy_core.Common.{
  ℕ, zero, suc, ◌+◌, ◌≤◌, ◌≡◌, refl, ◌∙◌, ◌⊎◌, inl, inr, true, false, Option, none, some, List, [],
  ◌∷◌, String, arith, Option-cases, Bool-cases, All, filter, ltb, length,
}
use strategy_core.Wire.Bounds.{max_tombstones}
use strategy_core.Wire.Orders.{RunnerEntryV6, is_live}
use strategy_core.Updates.Finalize.{tombstones, replaces, oldest, remove_at, evict}

-- The k-th entry is a tombstone.
abbrev TombAt : ℕ → List RunnerEntryV6 → Type 0
TombAt k [] = ⊥
TombAt zero (e ∷ es) = e.vanished ≡ true
TombAt (suc k) (e ∷ es) = TombAt k es

abbrev Best : Type 0
Best = Option (ℕ × RunnerEntryV6)

replaces-vanished :
    (pending : List String) (e : RunnerEntryV6) (best : Best)
    → replaces pending e best ≡ true
    → e.vanished ≡ true
unfolding replaces
replaces-vanished pending e none h = h
replaces-vanished pending e (some (i, b)) h = ground arith

oldest-TombAt :
    (pending : List String) (i : ℕ) (best : Best) (es : List RunnerEntryV6) (j : ℕ)
    → oldest pending i best es ≡ some j
    → ((b : RunnerEntryV6) × (best ≡ some (j, b))) ⊎ ((k : ℕ) × (j ≡ i + k) × TombAt k es)
unfolding oldest
oldest-TombAt pending i none [] j h = cc
oldest-TombAt pending i (some (m, b)) [] j h = inl (b, ground arith)
oldest-TombAt pending i best (e ∷ es) j h = elim (Bool-cases (replaces pending e best)) [
  | inl better ↦ elim (oldest-TombAt pending (i + 1) (some (i, e)) es j (rw better at h)) [
    | inl (b, new) ↦ inr (0, ground arith, replaces-vanished pending e best better)
    | inr (k, at, t) ↦ inr (suc k, omega arith, t)
  ]
  | inr worse ↦ elim (oldest-TombAt pending (i + 1) best es j (rw worse at h)) [
    | inl old ↦ inl old
    | inr (k, at, t) ↦ inr (suc k, omega arith, t)
  ]
]

remove_at-TombAt :
    (k : ℕ) (es : List RunnerEntryV6)
    → TombAt k es
    → (tombstones es ≡ suc (tombstones (remove_at k es)))
      × (filter is_live (remove_at k es) ≡ filter is_live es)
unfolding remove_at
remove_at-TombAt k [] t = absurd t
remove_at-TombAt zero (e ∷ es) t = ground arith
remove_at-TombAt (suc k) (e ∷ es) t = ground (arith, remove_at-TombAt k es t)

remove_at-All :
    (P : RunnerEntryV6 → Type 0) (k : ℕ) (es : List RunnerEntryV6)
    → All P es
    → All P (remove_at k es)
unfolding remove_at
remove_at-All P k [] h = h
remove_at-All P zero (e ∷ es) h = h.1
remove_at-All P (suc k) (e ∷ es) h = (h.0, remove_at-All P k es h.1)

not-replaces :
    (pending : List String) (e : RunnerEntryV6) (best : Best)
    → best ≡ none
    → replaces pending e best ≡ false
    → e.vanished ≡ false
unfolding replaces
not-replaces pending e none b h = h
not-replaces pending e (some c) b h = cc

-- A scan that finds none has met none.
oldest-none :
    (pending : List String) (i : ℕ) (best : Best) (es : List RunnerEntryV6)
    → oldest pending i best es ≡ none
    → (best ≡ none) × (tombstones es ≡ 0)
unfolding oldest
oldest-none pending i none [] h = (refl, refl)
oldest-none pending i (some (m, b)) [] h = cc
oldest-none pending i best (e ∷ es) h = elim (Bool-cases (replaces pending e best)) [
  | inl better ↦ cc (oldest-none pending (i + 1) (some (i, e)) es (rw better at h)).0
  | inr worse ↦
      let (empty, rest) = oldest-none pending (i + 1) best es (rw worse at h) in
      (empty, ground (arith, rest, not-replaces pending e best empty worse))
]

-- One round of the loop: it ends within the bound, or takes a tombstone.
data Round (fuel : ℕ) (pending : List String) (es : List RunnerEntryV6) : Type 0 where
  ends :
      tombstones es ≤ max_tombstones → (evict (suc fuel) pending es).0 ≡ es → Round fuel pending es
  takes :
      (k : ℕ)
      → TombAt k es
      → (evict (suc fuel) pending es).0 ≡ (evict fuel pending (remove_at k es)).0
      → Round fuel pending es

evict-Round : (fuel : ℕ) (pending : List String) (es : List RunnerEntryV6) → Round fuel pending es
unfolding evict
evict-Round fuel pending es = elim (Bool-cases (ltb max_tombstones (tombstones es))) [
  | inr within ↦ ends (ground arith) (rw (within, evict))
  | inl over ↦ elim (Option-cases (oldest pending 0 none es)) [
    | inl nothing ↦ absurd (ground (arith, oldest-none pending 0 none es nothing))
    | inr (j, found) ↦ elim (oldest-TombAt pending 0 none es j found) [
      | inl (b, e) ↦ cc
      | inr (k, at, t) ↦ let same : j ≡ k = omega arith in takes k t (rw (over, found, evict, same))
    ]
  ]
]

-- With fuel for every tombstone, however many there are, the eviction leaves at most
-- `max_tombstones` of them.
pub evict-le :
    (fuel : ℕ) (pending : List String) (es : List RunnerEntryV6)
    → tombstones es ≤ fuel
    → tombstones (evict fuel pending es).0 ≤ max_tombstones
evict-le zero pending es h = unfold evict in omega arith
evict-le (suc fuel) pending es h = elim (evict-Round fuel pending es) [
  | ends within same ↦ rw same within
  | takes k t same ↦
      rw same (evict-le fuel pending (remove_at k es) (omega (arith, (remove_at-TombAt k es t).0)))
]

-- The eviction keeps each live entry, in order, whatever its fuel.
pub evict-live :
    (fuel : ℕ) (pending : List String) (es : List RunnerEntryV6)
    → filter is_live (evict fuel pending es).0 ≡ filter is_live es
evict-live zero pending es = unfold evict in refl
evict-live (suc fuel) pending es = elim (evict-Round fuel pending es) [
  | ends within same ↦ rw same
  | takes k t same ↦
      rw same (evict-live fuel pending (remove_at k es) ∙ (remove_at-TombAt k es t).1)
]

pub evict-All :
    (P : RunnerEntryV6 → Type 0) (fuel : ℕ) (pending : List String) (es : List RunnerEntryV6)
    → All P es
    → All P (evict fuel pending es).0
evict-All P zero pending es h = unfold evict in h
evict-All P (suc fuel) pending es h = elim (evict-Round fuel pending es) [
  | ends within same ↦ rw same h
  | takes k t same ↦ rw same (evict-All P fuel pending (remove_at k es) (remove_at-All P k es h))
]

length-remove_at : (k : ℕ) (es : List RunnerEntryV6) → length (remove_at k es) ≤ length es
unfolding remove_at
length-remove_at k [] = omega arith
length-remove_at zero (e ∷ es) = omega arith
length-remove_at (suc k) (e ∷ es) = omega (arith, length-remove_at k es)

pub length-evict :
    (fuel : ℕ) (pending : List String) (es : List RunnerEntryV6)
    → length (evict fuel pending es).0 ≤ length es
length-evict zero pending es = unfold evict in omega arith
length-evict (suc fuel) pending es = elim (evict-Round fuel pending es) [
  | ends within same ↦ rw same (omega arith)
  | takes k t same ↦
      rw same (omega (arith, length-evict fuel pending (remove_at k es), length-remove_at k es))
]
