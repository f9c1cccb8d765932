-- ===== src/Quantity.antt =====
-- Exact contract quantities in hundredths (`ContractQuantity` in
-- native/strategy_core_kernel/src/actions.rs). A quantity is an `i64`; the operations that may leave
-- its range are `none` there.
use strategy_core.Common.{
  ℕ, suc, ◌+◌, ◌-◌, ◌*◌, ◌/◌, ◌%◌, ◌^◌, ◌<◌, ◌≤◌, ◌≡◌, Bool, true, false, not, ◌&&◌, Option, none,
  some, ltb, leb, ◌==◌, if◌then◌else◌,
}
use strategy_core.Common.Int.{
  ℤ, pos, negsuc, sub_ℕ, ◌+ℤ◌, ◌-ℤ◌, ltb_ℤ, leb_ℤ, div_euclid, scale_ℤ, in_i64,
}
use strategy_core.Fees.Schedule.{ContractQuantity}
pub mod Whole

-- `from_hundredths`
abbrev pub of_hundredths : ℤ → ContractQuantity
of_hundredths h = record { hundredths = h }

-- A result in the `i64` range.
abbrev pub checked : ℤ → Option ContractQuantity
checked h = if in_i64 h then some (of_hundredths h) else none

abbrev pub i64_min : ℤ
i64_min = negsuc (2 ^ 63 - 1)

abbrev pub saturated : ℤ → ContractQuantity
saturated h =
    if in_i64 h
    then of_hundredths h
    else of_hundredths (if ltb_ℤ h (pos 0) then i64_min else pos (2 ^ 63 - 1))

unfoldable pub checked_from_whole_contracts : ℤ → Option ContractQuantity
checked_from_whole_contracts whole = checked (scale_ℤ whole 100)

-- The floor of the exact quantity.
unfoldable pub whole_contracts : ContractQuantity → ℤ
whole_contracts q = div_euclid q.hundredths 100

-- The remainder of an `i64` is 0 where that of its absolute value is.
unfoldable pub is_whole : ContractQuantity → Bool
is_whole q = elim q.hundredths [ pos n ↦ n % 100 == 0 | negsuc n ↦ suc n % 100 == 0 ]

-- `self.0 / 100`, which truncates.
abbrev pub truncated : ℤ → ℤ
truncated (pos n) = pos (n / 100)
truncated (negsuc n) = sub_ℕ 0 (suc n / 100)

unfoldable pub checked_whole_contracts : ContractQuantity → Option ℤ
unfolding is_whole
checked_whole_contracts q = if is_whole q then some (truncated q.hundredths) else none

-- The multiplication by 100 leaves the `i64` range close to its lower end: none there, where the
-- source panics or wraps.
unfoldable pub floor_to_whole : ContractQuantity → Option ContractQuantity
floor_to_whole q = checked (scale_ℤ (div_euclid q.hundredths 100) 100)

unfoldable pub is_positive : ContractQuantity → Bool
is_positive q = ltb_ℤ (pos 0) q.hundredths

unfoldable pub is_zero : ContractQuantity → Bool
is_zero q = leb_ℤ (pos 0) q.hundredths && leb_ℤ q.hundredths (pos 0)

unfoldable pub saturating_add : ContractQuantity → ContractQuantity → ContractQuantity
saturating_add a b = saturated (a.hundredths +ℤ b.hundredths)

unfoldable pub saturating_sub : ContractQuantity → ContractQuantity → ContractQuantity
saturating_sub a b = saturated (a.hundredths -ℤ b.hundredths)

unfoldable pub checked_add : ContractQuantity → ContractQuantity → Option ContractQuantity
checked_add a b = checked (a.hundredths +ℤ b.hundredths)

unfoldable pub checked_sub : ContractQuantity → ContractQuantity → Option ContractQuantity
checked_sub a b = checked (a.hundredths -ℤ b.hundredths)

unfoldable pub min_quantity : ContractQuantity → ContractQuantity → ContractQuantity
min_quantity a b = if leb_ℤ a.hundredths b.hundredths then a else b

unfoldable pub max_quantity : ContractQuantity → ContractQuantity → ContractQuantity
max_quantity a b = if leb_ℤ b.hundredths a.hundredths then a else b
