-- ===== src/Fees/Exact.antt =====
-- The trade fee against its exact value (`trade_fee_micros` in
-- native/strategy_core_kernel/src/fees.rs).
use strategy_core.Common.{
  ℕ, zero, suc, ◌+◌, ◌-◌, ◌*◌, ◌/◌, ◌^◌, ◌≤◌, ◌<◌, ◌≡◌, refl, sym, ap, ◌∙◌, inl, inr, none, [], ◌∷◌,
  ok, err, ok_or, ok_or-eq, arith, Option-cases,
}
use native.Mathlib.Nat.{div-eq_of_eq-mul_left, mul-le-mul, mul-le-mul_right}
use strategy_core.Common.Int.{try_u64, try_u64-eq}
use strategy_core.Fees.Schedule.{FeeError, FeeType, LiquidityRole, base_rate_millionths}
use strategy_core.Fees.Trade.{
  fee_denominator, gcd_loop, checked_product, div_ceil, reduced_fee, trade_fee_micros,
}
use strategy_core.Fees.Divide.{
  gcd_loop-Divides, div_ceil-bounds, checked_product-eq, scaled, scaled_over,
}

-- A fee is exact up to the rounding: the least number of microdollars that is not below
-- rate · multiplier · price · (1 - price) · quantity.
pub record IsCeil (fee amount : ℕ) : Type 0 where
  pub covers : amount ≤ fee * fee_denominator
  pub least : fee * fee_denominator < amount + fee_denominator

-- What a fill owes, over the denominator.
abbrev pub owed : ℕ → ℕ → ℕ → ℕ → ℕ
owed price quantity rate multiplier = rate * price * (1000000 - price) * quantity * multiplier

-- The reduced rate and denominator.
record Reduces (rate g a b : ℕ) : Type 0 where
  pub positive : 0 < g
  pub denominator : fee_denominator ≡ b * g
  pub rate_eq : rate ≡ a * g

reduces :
    (rate : ℕ)
    → let g = gcd_loop rate fee_denominator rate in Reduces rate g (rate / g) (fee_denominator / g)
reduces rate =
    let g = gcd_loop rate fee_denominator rate in
    let (g_pos, (b, d_eq), (a, r_eq)) =
      gcd_loop-Divides rate fee_denominator rate (omega arith) (omega arith) in
    record {
      positive = g_pos;
      denominator = d_eq ∙ ap (λ x. x * g) (sym (div-eq_of_eq-mul_left g_pos d_eq));
      rate_eq = r_eq ∙ ap (λ x. x * g) (sym (div-eq_of_eq-mul_left g_pos r_eq));
    }

factor_pos : (b g : ℕ) → fee_denominator ≡ b * g → 0 < b
factor_pos zero g h = absurd (omega arith)
factor_pos (suc b) g h = omega arith

reduced_fee-ok :
    (a b price quantity multiplier fee : ℕ)
    → 0 < b
    → reduced_fee a b price quantity multiplier ≡ ok fee
    → let n = 1 * a * price * (1000000 - price) * quantity * multiplier in
      (n ≤ fee * b) × (fee * b < n + b) × (fee < 2 ^ 64)
unfolding reduced_fee
reduced_fee-ok a b price quantity multiplier fee b_pos h =
    let factors = a ∷ price ∷ (1000000 - price) ∷ quantity ∷ multiplier ∷ [] in
    elim (Option-cases (checked_product 1 factors)) [
      | inl out ↦ absurd (cc (rw (out) at h))
      | inr (n, product) ↦
          let h' = rw (product) at h in
          let n_eq = checked_product-eq a price quantity multiplier 1 (1000000 - price) n product in
          let (fee_eq, fits) = try_u64-eq (div_ceil n b) fee (ok_or-eq _ _ _ h') in
          let bounds = div_ceil-bounds n b b_pos in
          rw⁻¹ (n_eq) (rw (fee_eq) (bounds.0, bounds.1, omega (arith, fits, fee_eq)))
    ]

-- A trade fee that the calculation returns is the fee owed (the rate and the multiplier on price,
-- complement and quantity) rounded up to the microdollar, and fits 64 bits.
pub trade_fee_micros_lem :
    (price quantity rate multiplier fee : ℕ)
    → trade_fee_micros price quantity rate multiplier ≡ ok fee
    → IsCeil fee (owed price quantity rate multiplier) × (fee < 2 ^ 64)
unfolding trade_fee_micros
trade_fee_micros_lem price quantity rate multiplier fee h =
    let g = gcd_loop rate fee_denominator rate in
    let a = rate / g in
    let b = fee_denominator / g in
    let r = reduces rate in
    let n = 1 * a * price * (1000000 - price) * quantity * multiplier in
    let (low, high, fits) =
      reduced_fee-ok a b price quantity multiplier fee (factor_pos b g r.denominator) h in
    let s =
      scaled fee a b g price (1000000 - price) quantity multiplier fee_denominator rate n r.positive
        r.denominator r.rate_eq refl low high in
    (record { covers = s.0; least = s.1 }, fits)

-- A product that leaves the `u128` range does so at its last factor.
product_out :
    (a price quantity multiplier : ℕ)
    → a ≤ 7
    → price ≤ 1000000
    → quantity < 2 ^ 64
    → checked_product 1 (a ∷ price ∷ (1000000 - price) ∷ quantity ∷ multiplier ∷ []) ≡ none
    → 2 ^ 128 ≤ 1 * a * price * (1000000 - price) * quantity * multiplier
unfolding checked_product
product_out a price quantity multiplier a_low p_low q_low h =
    let first = mul-le-mul a_low p_low in
    let other : 1000000 - price ≤ 1000000 = omega arith in
    let second = mul-le-mul first other in
    let q_le : quantity ≤ 2 ^ 64 = omega arith in
    let third = mul-le-mul second q_le in ground (arith, first, second, third)

try_u64-err : (x : ℕ) (e e' : FeeError) → ok_or (try_u64 x) e ≡ err e' → 2 ^ 64 ≤ x
try_u64-err x e e' h = ground arith

reduced_fee-err :
    (a b price quantity multiplier : ℕ) (e : FeeError)
    → 0 < b
    → b < 2 ^ 64
    → a ≤ 7
    → price ≤ 1000000
    → quantity < 2 ^ 64
    → reduced_fee a b price quantity multiplier ≡ err e
    → (2 ^ 64 - 1) * b < 1 * a * price * (1000000 - price) * quantity * multiplier
unfolding reduced_fee
reduced_fee-err a b price quantity multiplier e b_pos b_low a_low p_low q_low h =
    let factors = a ∷ price ∷ (1000000 - price) ∷ quantity ∷ multiplier ∷ [] in
    elim (Option-cases (checked_product 1 factors)) [
      | inl out ↦ omega (arith, product_out a price quantity multiplier a_low p_low q_low out)
      | inr (n, product) ↦
          let h' = rw (product) at h in
          let n_eq = checked_product-eq a price quantity multiplier 1 (1000000 - price) n product in
          let high = try_u64-err (div_ceil n b) _ e h' in
          let bounds = div_ceil-bounds n b b_pos in
          let over = mul-le-mul_right b high in omega (arith, bounds, over, n_eq)
    ]

-- The rates of the schedule leave a small coefficient and a denominator that fits.
rates_reduce :
    (fee_type : FeeType) (role : LiquidityRole)
    → let rate = base_rate_millionths fee_type role in
      let g = gcd_loop rate fee_denominator rate in (rate / g ≤ 7) × (fee_denominator / g < 2 ^ 64)
unfolding gcd_loop
rates_reduce FeeType.quadratic LiquidityRole.maker = (omega arith, omega arith)
rates_reduce FeeType.quadratic LiquidityRole.taker = (omega arith, omega arith)
rates_reduce FeeType.quadratic_with_maker_fees LiquidityRole.maker = (omega arith, omega arith)
rates_reduce FeeType.quadratic_with_maker_fees LiquidityRole.taker = (omega arith, omega arith)
rates_reduce FeeType.flat LiquidityRole.maker = (omega arith, omega arith)
rates_reduce FeeType.flat LiquidityRole.taker = (omega arith, omega arith)

-- At a rate of the schedule the calculation refuses only a fee above the `u64` range: the wide
-- intermediate never refuses one that fits.
pub trade_fee_micros-err :
    (price quantity multiplier : ℕ) (fee_type : FeeType) (role : LiquidityRole) (e : FeeError)
    → price ≤ 1000000
    → quantity < 2 ^ 64
    → trade_fee_micros price quantity (base_rate_millionths fee_type role) multiplier ≡ err e
    → (2 ^ 64 - 1) * fee_denominator
      < owed price quantity (base_rate_millionths fee_type role) multiplier
unfolding trade_fee_micros
trade_fee_micros-err price quantity multiplier fee_type role e p_low q_low h =
    let rate = base_rate_millionths fee_type role in
    let g = gcd_loop rate fee_denominator rate in
    let a = rate / g in
    let b = fee_denominator / g in
    let r = reduces rate in
    let small = rates_reduce fee_type role in
    let over =
      reduced_fee-err a b price quantity multiplier e (factor_pos b g r.denominator) small.1 small.0
        p_low q_low h in
    scaled_over a b g price (1000000 - price) quantity multiplier fee_denominator rate r.positive
      r.denominator r.rate_eq over
