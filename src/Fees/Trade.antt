-- ===== src/Fees/Trade.antt =====
-- The trade fee of one fill (`trade_fee_micros` and `calculate_trade_fee_micros` in
-- native/strategy_core_kernel/src/fees.rs).
use strategy_core.Common.{
  ℕ, zero, suc, ◌+◌, ◌-◌, ◌*◌, ◌/◌, ◌%◌, ◌^◌, true, false, Option, none, some, List, [], ◌∷◌, ◌>>=◌,
  ◌>>◌, ok_or, fail_if, ltb, ◌==◌, if◌then◌else◌, and_then,
}
use strategy_core.Common.Int.{try_u64}
use strategy_core.Fees.Schedule.{
  FeeError, FeeResult, LiquidityRole, FeeTerms, ContractQuantity, base_rate_millionths,
  quantity_hundredths,
}

abbrev pub fee_denominator : ℕ
fee_denominator = 100000000000000000000

abbrev pub micros_per_dollar : ℕ
micros_per_dollar = 1000000

-- The loop that reduces the rate against the denominator: the divisor that is left when the
-- remainder is 0. The remainder falls at each turn, so it is enough fuel.
unfoldable pub gcd_loop : ℕ → ℕ → ℕ → ℕ
gcd_loop zero divisor remainder = divisor
gcd_loop (suc fuel) divisor remainder = elim (remainder == 0) [
  | true ↦ divisor
  | false ↦ gcd_loop fuel remainder (divisor % remainder)
]

-- `u128::checked_mul`
abbrev pub checked_mul_u128 : ℕ → ℕ → Option ℕ
checked_mul_u128 a b = if ltb (a * b) (2 ^ 128) then some (a * b) else none

-- `try_fold(1, checked_mul)`
unfoldable pub checked_product : ℕ → List ℕ → Option ℕ
checked_product value [] = some value
checked_product value (factor ∷ factors) =
    and_then (checked_mul_u128 value factor) (λ next. checked_product next factors)

-- `div_ceil` by a positive number
abbrev pub div_ceil : ℕ → ℕ → ℕ
div_ceil n d = if n % d == 0 then n / d else n / d + 1

-- The product over the reduced rate, and its ceiling over the reduced denominator.
unfoldable pub reduced_fee : ℕ → ℕ → ℕ → ℕ → ℕ → FeeResult ℕ
unfolding checked_product
reduced_fee rate denominator price_micros quantity fee_multiplier_millionths =
    ok_or
      (checked_product 1 (
        rate ∷ price_micros ∷ (1000000 - price_micros) ∷ quantity ∷ fee_multiplier_millionths ∷ []))
      (FeeError.invalid_input "trade fee overflow")
    >>= λ numerator.
        ok_or (try_u64 (div_ceil numerator denominator))
          (FeeError.invalid_input "fee amount exceeds microdollar range")

-- The callers check that the price is at most one dollar. Above it the source's `1_000_000 - price`
-- leaves `u64` (a panic, or a wrap in a release build), where the subtraction here stops at 0.
unfoldable pub trade_fee_micros : ℕ → ℕ → ℕ → ℕ → FeeResult ℕ
unfolding gcd_loop reduced_fee
trade_fee_micros price_micros quantity base_rate fee_multiplier_millionths =
    let divisor = gcd_loop base_rate fee_denominator base_rate in
    reduced_fee (base_rate / divisor) (fee_denominator / divisor) price_micros quantity
      fee_multiplier_millionths

unfoldable pub calculate_trade_fee_micros :
    ℕ → ContractQuantity → LiquidityRole → FeeTerms → FeeResult ℕ
unfolding trade_fee_micros quantity_hundredths
calculate_trade_fee_micros price_micros quantity liquidity_role terms =
    fail_if (ltb micros_per_dollar price_micros)
      (FeeError.invalid_input "fill price exceeds one dollar")
    >> (quantity_hundredths quantity >>= λ hundredths.
        trade_fee_micros price_micros hundredths
          (base_rate_millionths terms.fee_type liquidity_role) terms.multiplier_millionths)
