-- ===== src/Quantity/Whole.antt =====
-- Whole contracts and the exact quantity (`ContractQuantity` in
-- native/strategy_core_kernel/src/actions.rs).
use strategy_core.Common.{
  ◌≡◌, ◌+◌, ◌*◌, ◌/◌, ◌-◌, ◌^◌, ltb, true, Bool-cases, ◌⊎◌, inl, inr, none, some, arith,
}
use strategy_core.Common.Int.{ℤ, pos, negsuc, ◌+ℤ◌, ◌≤ℤ◌, div_euclid, scale_ℤ, in_i64, ltb_ℤ}
use strategy_core.Fees.Schedule.{ContractQuantity}
use strategy_core.Quantity.{
  of_hundredths, checked_from_whole_contracts, whole_contracts, is_whole, checked_whole_contracts,
  floor_to_whole,
}

-- The whole contracts of a quantity made of whole contracts are those, by the floor and by the
-- checked conversion.
pub whole_contracts-checked_from_whole_contracts :
    (w : ℤ) (q : ContractQuantity)
    → checked_from_whole_contracts w ≡ some q
    → (whole_contracts q ≡ w) × (checked_whole_contracts q ≡ some w)
unfolding checked_from_whole_contracts whole_contracts checked_whole_contracts is_whole div_euclid
    scale_ℤ
whole_contracts-checked_from_whole_contracts (pos n) q h = ground arith
whole_contracts-checked_from_whole_contracts (negsuc n) q h = ground arith

-- Eight hundredths from the lower end of the `i64` range and up.
abbrev pub lowest_floored : ℤ
lowest_floored = negsuc (2 ^ 63 - 9)

-- What the floor of a quantity is.
pub record Floors (q f : ContractQuantity) : Type 0 where
  pub whole : is_whole f ≡ true
  pub below : f.hundredths ≤ℤ q.hundredths
  pub close : q.hundredths ≤ℤ f.hundredths +ℤ pos 99
  pub contracts : f.hundredths ≡ scale_ℤ (whole_contracts q) 100
  pub fits : in_i64 f.hundredths ≡ true

floors :
    (x : ℤ)
    → in_i64 x ≡ true
    → (lowest_floored ≤ℤ x
        × (f : ContractQuantity) × (floor_to_whole (of_hundredths x) ≡ some f)
        × Floors (of_hundredths x) f)
      ⊎ ((ltb_ℤ x lowest_floored ≡ true) × (floor_to_whole (of_hundredths x) ≡ none))
unfolding is_whole floor_to_whole whole_contracts div_euclid scale_ℤ ◌+ℤ◌
floors (pos n) h = inl (
  omega arith,
  of_hundredths (pos (n / 100 * 100)),
  ground arith,
  record {
    whole = ground arith;
    below = omega arith;
    close = ground arith;
    contracts = ground arith;
    fits = ground arith;
  },
)
floors (negsuc n) h = elim (Bool-cases (ltb n (2 ^ 63 - 8))) [
  | inl high ↦ inl (
    ground arith,
    of_hundredths (negsuc (n / 100 * 100 + 99)),
    ground arith,
    record {
      whole = ground arith;
      below = ground arith;
      close = ground arith;
      contracts = ground arith;
      fits = ground arith;
    },
  )
  | inr low ↦ inr (ground arith, ground arith)
]

-- The floor of an `i64` quantity is whole, at most the quantity, less than a contract below it, the
-- whole contracts exactly, and in the `i64` range; it exists but for the eight least quantities, whose
-- floor is out of that range.
pub floor_to_whole_lem :
    (q : ContractQuantity)
    → in_i64 q.hundredths ≡ true
    → (lowest_floored ≤ℤ q.hundredths
        × (f : ContractQuantity) × (floor_to_whole q ≡ some f)
        × Floors q f)
      ⊎ ((ltb_ℤ q.hundredths lowest_floored ≡ true) × (floor_to_whole q ≡ none))
floor_to_whole_lem q h = floors q.hundredths h
