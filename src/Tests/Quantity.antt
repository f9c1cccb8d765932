-- ===== src/Tests/Quantity.antt =====
-- Quantities at concrete hundredths.
use strategy_core.Common.{◌≡◌, refl, true, some}
use strategy_core.Common.Int.{negsuc, ◌≤ℤ◌, div_euclid, scale_ℤ}
use strategy_core.Common.{◌⊎◌, ◌^◌, ◌-◌, none}
use strategy_core.Common.Int.{ltb_ℤ}
use strategy_core.Fees.Schedule.{ContractQuantity}
use strategy_core.Quantity.{
  of_hundredths, checked_from_whole_contracts, whole_contracts, checked_whole_contracts,
  floor_to_whole,
}
use strategy_core.Quantity.Whole.{
  whole_contracts-checked_from_whole_contracts, floor_to_whole_lem, lowest_floored, Floors,
}

whole_contracts-checked_from_whole_contracts_example :
    (whole_contracts (of_hundredths (negsuc 299)) ≡ negsuc 2)
    × (checked_whole_contracts (of_hundredths (negsuc 299)) ≡ some (negsuc 2))
unfolding checked_from_whole_contracts scale_ℤ
whole_contracts-checked_from_whole_contracts_example =
    whole_contracts-checked_from_whole_contracts (negsuc 2) (of_hundredths (negsuc 299)) refl

-- The floor of -1.50 contracts is -2.
floor_test : floor_to_whole (of_hundredths (negsuc 149)) ≡ some (of_hundredths (negsuc 199))
unfolding floor_to_whole div_euclid scale_ℤ
floor_test = refl

-- The least quantity has no floor.
no_floor_test : floor_to_whole (of_hundredths (negsuc (2 ^ 63 - 1))) ≡ none
unfolding floor_to_whole div_euclid scale_ℤ
no_floor_test = refl

floor_to_whole_lem_example :
    (lowest_floored ≤ℤ negsuc 149
      × (f : ContractQuantity) × (floor_to_whole (of_hundredths (negsuc 149)) ≡ some f)
      × Floors (of_hundredths (negsuc 149)) f)
    ⊎ ((ltb_ℤ (negsuc 149) lowest_floored ≡ true)
        × (floor_to_whole (of_hundredths (negsuc 149)) ≡ none))
floor_to_whole_lem_example = floor_to_whole_lem (of_hundredths (negsuc 149)) refl
