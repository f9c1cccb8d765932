-- ===== src/Fees/Charge.antt =====
-- What the Broker charges for one fill, as a whole (`calculate_direct_member_fill_fee_micros` in
-- native/strategy_core_kernel/src/fees.rs).
use strategy_core.Common.{
  ℕ, ◌*◌, ◌/◌, ◌%◌, ◌≤◌, ◌≡◌, refl, sym, Bool, true, false, not, ok, >>=-eq-ok, ok_or, ok_or-eq,
  fail_if, arith, ltb, ◌==◌, subst,
}
use strategy_core.Common.Int.{try_u64, try_u64-eq}
use strategy_core.Fees.Schedule.{OrderAction, FeeType, LiquidityRole, base_rate_millionths}
use strategy_core.Fees.Trade.{trade_fee_micros, micros_per_dollar}
use strategy_core.Fees.Rounding.{FeeCalculationMicros}
use strategy_core.Fees.Fill.{revenue_of, calculate_direct_member_fill_fee_micros}
use strategy_core.Fees.Exact.{IsCeil, owed, trade_fee_micros_lem}
use strategy_core.Fees.Posting.{Posts, apply_fee_rounding_micros_lem}

-- A fill is charged exactly: its principal is price times quantity, its trade fee the ceiling of
-- what the schedule owes, and the rest is posted against the signed principal.
pub record Charged (action : OrderAction) (price quantity rate multiplier accumulator : ℕ)
    (f : FeeCalculationMicros) : Type 0 where
  pub principal : ℕ
  pub in_range : price ≤ micros_per_dollar
  pub exact : principal * 100 ≡ price * quantity
  pub trade : IsCeil f.trade_fee_micros (owed price quantity rate multiplier)
  pub posts : Posts (revenue_of action principal) f.trade_fee_micros accumulator f

fail_if-eq {ℓ} : {E : Type ℓ} (b : Bool) (e : E) (u : Unit {0}) → fail_if b e ≡ ok u → b ≡ false
fail_if-eq true e u h = cc
fail_if-eq false e u h = refl

-- A charge that is computed has a price of at most a dollar, a principal that is the price times the
-- quantity with nothing rounded, the trade fee owed at the schedule's rate rounded up to the
-- microdollar, and the posting of that revenue and fee.
pub calculate_direct_member_fill_fee_micros_lem :
    (action : OrderAction) (price quantity : ℕ) (role : LiquidityRole) (accumulator : ℕ)
    (fee_type : FeeType) (multiplier : ℕ) (f : FeeCalculationMicros)
    → calculate_direct_member_fill_fee_micros action price quantity role accumulator fee_type
        multiplier
      ≡ ok f
    → Charged action price quantity (base_rate_millionths fee_type role) multiplier accumulator f
unfolding calculate_direct_member_fill_fee_micros
calculate_direct_member_fill_fee_micros_lem action price quantity role accumulator fee_type
      multiplier f h =
    let rate = base_rate_millionths fee_type role in
    let (u1, low, h1) = >>=-eq-ok (fail_if (ltb micros_per_dollar price) _) _ h in
    let (u2, whole, h2) = >>=-eq-ok (fail_if (not ((price * quantity) % 100 == 0)) _) _ h1 in
    let (principal, fits, h3) = >>=-eq-ok (ok_or (try_u64 (price * quantity / 100)) _) _ h2 in
    let (fee, fee_ok, h4) = >>=-eq-ok (trade_fee_micros price quantity rate multiplier) _ h3 in
    let p = apply_fee_rounding_micros_lem (revenue_of action principal) fee accumulator f h4 in
    let ceil = trade_fee_micros_lem price quantity rate multiplier fee fee_ok in
    let cut = try_u64-eq (price * quantity / 100) principal (ok_or-eq _ _ _ fits) in
    let even = fail_if-eq _ _ _ whole in
    let low' = fail_if-eq _ _ _ low in
    record {
      principal = principal;
      in_range = ground (arith, low');
      exact = ground (arith, cut.0, even);
      trade = subst (λ t. IsCeil t (owed price quantity rate multiplier)) (sym p.same_fee) ceil.0;
      posts = subst (λ t. Posts (revenue_of action principal) t accumulator f) (sym p.same_fee) p;
    }
