-- ===== src/Fees/Fill.antt =====
-- What the Broker charges for one fill (`calculate_direct_member_fill_fee_micros` and
-- `calculate_fill_fee_micros` in native/strategy_core_kernel/src/fees.rs).
use strategy_core.Common.{ℕ, ◌*◌, ◌/◌, ◌%◌, not, ◌>>=◌, ◌>>◌, ok_or, fail_if, ltb, ◌==◌}
use strategy_core.Common.Int.{ℤ, pos, ◌-ℤ◌, try_u64}
use strategy_core.Fees.Schedule.{
  OrderAction, FeeError, FeeResult, FeeType, LiquidityRole, FeeTerms, ContractQuantity,
  base_rate_millionths, quantity_hundredths,
}
use strategy_core.Fees.Trade.{trade_fee_micros, micros_per_dollar}
use strategy_core.Fees.Rounding.{FeeCalculationMicros, apply_fee_rounding_micros}

-- The signed principal: negative for a buy.
abbrev pub revenue_of : OrderAction → ℕ → ℤ
revenue_of OrderAction.buy principal = pos 0 -ℤ pos principal
revenue_of OrderAction.sell principal = pos principal

unfoldable pub calculate_direct_member_fill_fee_micros :
    OrderAction → ℕ → ℕ → LiquidityRole → ℕ → FeeType → ℕ → FeeResult FeeCalculationMicros
unfolding trade_fee_micros apply_fee_rounding_micros
calculate_direct_member_fill_fee_micros action price quantity role accumulator fee_type multiplier =
    fail_if (ltb micros_per_dollar price) (FeeError.invalid_input "fill price exceeds one dollar")
    >> (fail_if (not ((price * quantity) % 100 == 0))
          (FeeError.invalid_input "fill principal is not exact in microdollars")
        >> (ok_or (try_u64 (price * quantity / 100))
              (FeeError.invalid_input "fill principal exceeds microdollar range")
            >>= λ principal.
                trade_fee_micros price quantity (base_rate_millionths fee_type role) multiplier
                >>= λ trade_fee.
                    apply_fee_rounding_micros (revenue_of action principal) trade_fee accumulator))

unfoldable pub calculate_fill_fee_micros :
    OrderAction
    → ℕ
    → ContractQuantity
    → LiquidityRole
    → ℕ
    → FeeTerms
    → FeeResult FeeCalculationMicros
unfolding quantity_hundredths calculate_direct_member_fill_fee_micros
calculate_fill_fee_micros action price quantity role accumulator terms =
    quantity_hundredths quantity >>= λ hundredths.
    calculate_direct_member_fill_fee_micros action price hundredths role accumulator terms.fee_type
      terms.multiplier_millionths
