-- ===== src/Fees/Rounding.antt =====
-- The rounding of one fill's posting and the rebate of the order's accumulator
-- (`apply_fee_rounding_micros` in native/strategy_core_kernel/src/fees.rs). The multiplication by
-- the posting grid stays in the `i128` range unless the revenue is at its very end.
use strategy_core.Common.{ℕ, ◌+◌, ◌-◌, ◌*◌, ◌/◌, min, ok, ◌>>=◌, ok_or}
use strategy_core.Common.Int.{ℤ, pos, ◌-ℤ◌, div_euclid, scale_ℤ, as_u64, checked_sub_i128, try_u64}
use strategy_core.Fees.Schedule.{FeeError, FeeResult}

pub record FeeCalculationMicros : Type 0 where
  pub trade_fee_micros : ℕ
  pub rounding_fee_micros : ℕ
  pub rebate_micros : ℕ
  pub net_fee_micros : ℕ
  pub posted_balance_change_micros : ℤ
  pub fee_accumulator_micros : ℕ

abbrev pub posting_grid_micros : ℕ
posting_grid_micros = 100

-- The cash change on the grid at or below an amount.
abbrev pub floored : ℤ → ℤ
floored unposted = scale_ℤ (div_euclid unposted posting_grid_micros) posting_grid_micros

-- The whole grid units of the accumulator, up to those of the fill's own fee.
abbrev pub rebate_of : ℕ → ℕ → ℕ
rebate_of accumulated before_rebate = min (accumulated / 100 * 100) (before_rebate / 100 * 100)

abbrev out_of_range : FeeError
out_of_range = FeeError.invalid_input "fee amount exceeds microdollar range"

-- The rebate and what is posted, from the amounts before the rebate.
unfoldable pub posted_fill : ℤ → ℕ → ℕ → ℕ → FeeResult FeeCalculationMicros
posted_fill revenue trade_fee fee_accumulator rounding_fee =
    let accumulated = fee_accumulator + rounding_fee in
    let before_rebate = trade_fee + rounding_fee in
    let rebate = rebate_of accumulated before_rebate in
    ok_or (try_u64 (before_rebate - rebate)) out_of_range >>= λ net_fee.
    ok_or (try_u64 (accumulated - rebate))
      (FeeError.invalid_input "fee accumulator exceeds microdollar range")
    >>= λ accumulator.
        ok_or (try_u64 rebate) (FeeError.invalid_input "fee rebate exceeds microdollar range")
        >>= λ rebate'.
            ok_or (checked_sub_i128 revenue (pos net_fee)) out_of_range >>= λ posted_change.
            ok (record {
              trade_fee_micros = trade_fee;
              rounding_fee_micros = rounding_fee;
              rebate_micros = rebate';
              net_fee_micros = net_fee;
              posted_balance_change_micros = posted_change;
              fee_accumulator_micros = accumulator;
            })

unfoldable pub apply_fee_rounding_micros : ℤ → ℕ → ℕ → FeeResult FeeCalculationMicros
unfolding posted_fill
apply_fee_rounding_micros revenue trade_fee fee_accumulator =
    ok_or (checked_sub_i128 revenue (pos trade_fee)) out_of_range >>= λ unposted.
    posted_fill revenue trade_fee fee_accumulator (as_u64 (unposted -ℤ floored unposted))
