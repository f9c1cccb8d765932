-- ===== src/Fees/Reserve.antt =====
-- The reservation of a new buy (`reserve_direct_member_buy_fee_micros`,
-- `buy_fee_reservation_micros` and `buy_commitment_micros` in
-- native/strategy_core_kernel/src/fees.rs).
use strategy_core.Common.{
  ℕ, zero, suc, ◌+◌, ◌-◌, ◌*◌, ◌/◌, ◌%◌, min, max, not, ◌||◌, ok, ◌>>=◌, ◌>>◌, ok_or, fail_if, ltb,
  ◌==◌, if◌then◌else◌,
}
use strategy_core.Common.Int.{try_u64}
use strategy_core.Wire.Broker.{checked_add_u64}
use strategy_core.Fees.Schedule.{
  FeeError, FeeResult, FeeType, LiquidityRole, FeeTerms, ContractQuantity, base_rate_millionths,
  quantity_hundredths,
}
use strategy_core.Fees.Trade.{trade_fee_micros, div_ceil}

-- The higher of the fee type's two rates.
abbrev pub highest_rate : FeeType → ℕ
highest_rate fee_type =
    max (base_rate_millionths fee_type LiquidityRole.maker)
      (base_rate_millionths fee_type LiquidityRole.taker)

-- The vertex of the unrounded cost, or the cap below it.
abbrev pub peak_of : ℕ → ℕ → ℕ
peak_of cap coefficient =
    if coefficient == 0
    then cap
    else min ((1000000 * coefficient + 1000000000000000000) / (2 * coefficient)) cap

-- The two prices of a residue around the vertex.
abbrev pub lower_of : ℕ → ℕ → ℕ
lower_of peak residue = if ltb peak residue then residue else residue + (peak - residue) / 100 * 100

abbrev pub last_of : ℕ → ℕ → ℕ
last_of cap residue = cap - (cap - residue) % 100

-- The cost of one hundredth at a price, in hundredths of a microdollar.
unfoldable pub raised : ℕ → ℕ → ℕ → ℕ → FeeResult ℕ
unfolding trade_fee_micros
raised rate multiplier per_hundredth price =
    trade_fee_micros price 1 rate multiplier >>= λ fee. ok (max per_hundredth (price + 100 * fee))

unfoldable pub raised_twice : ℕ → ℕ → ℕ → ℕ → ℕ → ℕ → FeeResult ℕ
unfolding raised
raised_twice rate multiplier cap peak residue per_hundredth =
    raised rate multiplier per_hundredth (lower_of peak residue) >>= λ once.
    raised rate multiplier once (min (lower_of peak residue + 100) (last_of cap residue))

-- The loop over the residues below `count`, from `residue` on.
unfoldable pub over_residues : ℕ → ℕ → ℕ → ℕ → ℕ → ℕ → ℕ → FeeResult ℕ
unfolding raised_twice
over_residues rate multiplier cap peak residue zero per_hundredth = ok per_hundredth
over_residues rate multiplier cap peak residue (suc left) per_hundredth =
    raised_twice rate multiplier cap peak residue per_hundredth
    >>= over_residues rate multiplier cap peak (residue + 1) left

unfoldable pub reserve_direct_member_buy_fee_micros : ℕ → ℕ → FeeType → ℕ → FeeResult ℕ
unfolding over_residues
reserve_direct_member_buy_fee_micros cap quantity fee_type multiplier =
    fail_if (ltb 1000000 cap) (FeeError.invalid_input "order price cap exceeds one dollar")
    >> (if (quantity == 0) || (cap == 0)
        then ok 0
        else let rate = highest_rate fee_type in
          over_residues rate multiplier cap (peak_of cap (rate * multiplier)) 0 (min 100 (cap + 1))
            (div_ceil cap 10000 * 10000)
          >>= λ per_hundredth.
              let cash = div_ceil (div_ceil (quantity * per_hundredth) 100 + 99) 100 * 100 in
              ok_or (try_u64 (cash - quantity * cap / 100))
                (FeeError.invalid_input "fee reservation exceeds microdollar range"))

unfoldable pub buy_fee_reservation_micros : ℕ → ContractQuantity → FeeTerms → FeeResult ℕ
unfolding quantity_hundredths reserve_direct_member_buy_fee_micros
buy_fee_reservation_micros cap quantity terms = quantity_hundredths quantity >>= λ hundredths.
    reserve_direct_member_buy_fee_micros cap hundredths terms.fee_type terms.multiplier_millionths

unfoldable pub buy_commitment_micros : ℕ → ContractQuantity → FeeTerms → FeeResult ℕ
unfolding quantity_hundredths buy_fee_reservation_micros
buy_commitment_micros cap quantity terms = quantity_hundredths quantity >>= λ hundredths.
    fail_if ((hundredths == 0) || (cap == 0))
      (FeeError.invalid_input "buy order needs a positive quantity and price")
    >> (fail_if (not ((hundredths * cap) % 100 == 0))
          (FeeError.invalid_input "order principal is not exact in microdollars")
        >> (ok_or (try_u64 (hundredths * cap / 100))
              (FeeError.invalid_input "order principal exceeds microdollar range")
            >>= λ principal. buy_fee_reservation_micros cap quantity terms >>= λ reservation.
                ok_or (checked_add_u64 principal reservation)
                  (FeeError.invalid_input "order commitment exceeds microdollar range")))
