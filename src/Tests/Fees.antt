-- ===== src/Tests/Fees.antt =====
-- The fees at concrete prices and quantities.
use strategy_core.Common.{ℕ, ◌+◌, ◌-◌, ◌*◌, ◌^◌, ◌<◌, ◌≡◌, refl, List, [], ◌∷◌, ok, arith}
use strategy_core.Common.Int.{ℤ, negsuc, ◌-ℤ◌, div_euclid, scale_ℤ, as_u64, checked_sub_i128}
use strategy_core.Fees.Schedule.{
  OrderAction, FeeType, LiquidityRole, FeeError, base_rate_millionths,
}
use strategy_core.Fees.Trade.{
  fee_denominator, gcd_loop, checked_product, reduced_fee, trade_fee_micros,
}
use strategy_core.Fees.Rounding.{FeeCalculationMicros, posted_fill, apply_fee_rounding_micros}
use strategy_core.Fees.Fill.{calculate_direct_member_fill_fee_micros}
use strategy_core.Fees.Charge.{Charged, calculate_direct_member_fill_fee_micros_lem}
use strategy_core.Fees.Reserve.{
  reserve_direct_member_buy_fee_micros, over_residues, raised_twice, raised,
}
use strategy_core.Fees.Exact.{IsCeil, owed, trade_fee_micros_lem, trade_fee_micros-err}
use strategy_core.Fees.Posting.{
  Posts, apply_fee_rounding_micros_lem, apply_fee_rounding_micros-total, order_fills, total_net,
  total_trade, last_accumulator, total_net-order_fills,
}

-- A taker's fee on 2 contracts at 50 cents: 0.07 · 2 · 0.25 dollars.
trade_fee_test : trade_fee_micros 500000 200 70000 1000000 ≡ ok 35000
unfolding trade_fee_micros reduced_fee checked_product gcd_loop
trade_fee_test = refl

trade_fee_micros_lem_example : IsCeil 35000 (owed 500000 200 70000 1000000) × (35000 < 2 ^ 64)
unfolding trade_fee_micros reduced_fee checked_product gcd_loop
trade_fee_micros_lem_example = trade_fee_micros_lem 500000 200 70000 1000000 35000 refl

trade_fee_micros-err_example :
    (2 ^ 64 - 1) * fee_denominator
    < owed 500000 10000000000000000
        (base_rate_millionths FeeType.quadratic LiquidityRole.taker)
        18000000000000000000
unfolding trade_fee_micros reduced_fee checked_product gcd_loop
trade_fee_micros-err_example =
    trade_fee_micros-err 500000 10000000000000000 18000000000000000000 FeeType.quadratic
      LiquidityRole.taker (FeeError.invalid_input "trade fee overflow") (omega arith) (omega arith)
      refl

-- Two buys of 33 hundredths of a contract at 37 cents, by a taker: a fee of 5385 micros each.
abbrev two_buys : List (ℤ × ℕ)
two_buys = (negsuc 122099, 5385) ∷ (negsuc 122099, 5385) ∷ []

abbrev first_fill : FeeCalculationMicros
first_fill = record {
  trade_fee_micros = 5385;
  rounding_fee_micros = 15;
  rebate_micros = 0;
  net_fee_micros = 5400;
  posted_balance_change_micros = negsuc 127499;
  fee_accumulator_micros = 15;
}

abbrev second_fill : FeeCalculationMicros
second_fill = record first_fill { fee_accumulator_micros = 30 }

apply_fee_rounding_micros_lem_example : Posts (negsuc 122099) 5385 0 first_fill
unfolding apply_fee_rounding_micros posted_fill checked_sub_i128 as_u64 div_euclid scale_ℤ ◌-ℤ◌
apply_fee_rounding_micros_lem_example =
    apply_fee_rounding_micros_lem (negsuc 122099) 5385 0 first_fill refl

apply_fee_rounding_micros-total_example :
    (f : FeeCalculationMicros) × (apply_fee_rounding_micros (negsuc 122099) 5385 90 ≡ ok f)
    × Posts (negsuc 122099) 5385 90 f
apply_fee_rounding_micros-total_example =
    apply_fee_rounding_micros-total (negsuc 122099) 5385 90 (omega arith) (omega arith)
      (omega arith) (omega arith)

total_net-order_fills_example :
    total_net (first_fill ∷ second_fill ∷ []) + 0
    ≡ total_trade two_buys + last_accumulator 0 (first_fill ∷ second_fill ∷ [])
unfolding order_fills apply_fee_rounding_micros posted_fill checked_sub_i128 as_u64 div_euclid
    scale_ℤ ◌-ℤ◌
total_net-order_fills_example =
    total_net-order_fills 0 two_buys (first_fill ∷ second_fill ∷ []) refl

-- A buy whose fill is rebated two whole units of the accumulator.
abbrev rebated_fill : FeeCalculationMicros
rebated_fill = record {
  trade_fee_micros = 35000;
  rounding_fee_micros = 0;
  rebate_micros = 200;
  net_fee_micros = 34800;
  posted_balance_change_micros = negsuc 1034799;
  fee_accumulator_micros = 50;
}

calculate_direct_member_fill_fee_micros_lem_example :
    Charged OrderAction.buy 500000 200
      (base_rate_millionths FeeType.quadratic LiquidityRole.taker)
      1000000
      250
      rebated_fill
unfolding calculate_direct_member_fill_fee_micros trade_fee_micros reduced_fee checked_product
    gcd_loop apply_fee_rounding_micros posted_fill checked_sub_i128 as_u64 div_euclid scale_ℤ ◌-ℤ◌
calculate_direct_member_fill_fee_micros_lem_example =
    calculate_direct_member_fill_fee_micros_lem OrderAction.buy 500000 200 LiquidityRole.taker 250
      FeeType.quadratic 1000000 rebated_fill refl

-- The reservation of a buy of one contract with a cap of 2 micros.
reserve_test : reserve_direct_member_buy_fee_micros 2 100 FeeType.quadratic 1000000 ≡ ok 10098
unfolding reserve_direct_member_buy_fee_micros over_residues raised_twice raised trade_fee_micros
    reduced_fee checked_product gcd_loop
reserve_test = refl
