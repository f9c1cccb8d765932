-- ===== src/Fees/Made.antt =====
-- What a posted fill is made of (`posted_fill` and `apply_fee_rounding_micros` in
-- native/strategy_core_kernel/src/fees.rs).
use strategy_core.Common.{ℕ, ◌+◌, ◌-◌, ◌≡◌, some, ok, arith}
use strategy_core.Common.Int.{ℤ, pos, ◌-ℤ◌, scale_ℤ, checked_sub_i128}
use strategy_core.Fees.Rounding.{FeeCalculationMicros, posted_fill, rebate_of}

pub checked_sub_i128-eq : (a b d : ℤ) → checked_sub_i128 a b ≡ some d → d ≡ a -ℤ b
unfolding checked_sub_i128
checked_sub_i128-eq a b d h = ground arith

-- What a fill's calculation is made of.
pub record Made (revenue : ℤ) (trade acc rounding : ℕ) (f : FeeCalculationMicros) : Type 0 where
  pub trade_fee : f.trade_fee_micros ≡ trade
  pub rounding_fee : f.rounding_fee_micros ≡ rounding
  pub rebate : f.rebate_micros ≡ rebate_of (acc + rounding) (trade + rounding)
  pub net : f.net_fee_micros ≡ (trade + rounding) - rebate_of (acc + rounding) (trade + rounding)
  pub accumulator :
      f.fee_accumulator_micros ≡ (acc + rounding) - rebate_of (acc + rounding) (trade + rounding)
  pub posted : f.posted_balance_change_micros ≡ revenue -ℤ pos f.net_fee_micros

pub posted_fill-Made :
    (revenue : ℤ) (trade acc rounding : ℕ) (f : FeeCalculationMicros)
    → posted_fill revenue trade acc rounding ≡ ok f
    → Made revenue trade acc rounding f
unfolding posted_fill
posted_fill-Made revenue trade acc rounding f h = record {
  trade_fee = ground arith;
  rounding_fee = ground arith;
  rebate = ground arith;
  net = ground arith;
  accumulator = ground arith;
  posted =
      ground
        (arith, checked_sub_i128-eq revenue (pos f.net_fee_micros) f.posted_balance_change_micros);
}

-- A multiple of the posting grid.
unfoldable pub OnGrid : ℤ → Type 0
OnGrid a = (k : ℤ) × (a ≡ scale_ℤ k 100)
