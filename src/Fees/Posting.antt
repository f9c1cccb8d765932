-- ===== src/Fees/Posting.antt =====
-- What a fill posts and what an order is charged over its fills
-- (`apply_fee_rounding_micros` in native/strategy_core_kernel/src/fees.rs).
use strategy_core.Common.{
  ℕ, ◌+◌, ◌-◌, ◌/◌, ◌%◌, ◌^◌, ◌≤◌, ◌<◌, ◌≡◌, ◌⊎◌, refl, ap, inl, inr, some, List, [], ◌∷◌, ok,
  ◌>>=◌, >>=-eq-ok, arith, Option-cases,
}
use strategy_core.Common.Int.{
  ℤ, pos, pos_part, neg_part, ◌+ℤ◌, ◌-ℤ◌, +ℤ_parts, -ℤ_parts, scale_ℤ_parts, eq_of_parts,
  div_euclid, scale_ℤ, as_u64, checked_sub_i128, try_u64, floor_100,
}
use strategy_core.Fees.Schedule.{FeeResult}
use strategy_core.Fees.Rounding.{
  FeeCalculationMicros, posted_fill, apply_fee_rounding_micros, floored, rebate_of,
}
use strategy_core.Fees.Made.{checked_sub_i128-eq, Made, posted_fill-Made, OnGrid}

-- What the Broker promises of a fill: nothing is lost between the fee, the rebate and the
-- accumulator, and the cash moves on the posting grid.
pub record Posts (revenue : ℤ) (trade acc : ℕ) (f : FeeCalculationMicros) : Type 0 where
  pub same_fee : f.trade_fee_micros ≡ trade
  pub charged : f.net_fee_micros + f.rebate_micros ≡ trade + f.rounding_fee_micros
  pub carried : f.fee_accumulator_micros + f.rebate_micros ≡ acc + f.rounding_fee_micros
  pub posted : f.posted_balance_change_micros ≡ revenue -ℤ pos f.net_fee_micros
  pub on_grid : OnGrid f.posted_balance_change_micros
  pub rounded : f.rounding_fee_micros < 100
  pub whole_rebate : f.rebate_micros % 100 ≡ 0
  -- No whole unit of the accumulator is left that the fill's fee could take.
  pub rebated : (f.fee_accumulator_micros < 100) ⊎ (f.net_fee_micros < 100)

rebate_of-bounds :
    (a b : ℕ)
    → (rebate_of a b ≤ a)
      × (rebate_of a b ≤ b)
      × (rebate_of a b % 100 ≡ 0)
      × ((a - rebate_of a b < 100) ⊎ (b - rebate_of a b < 100))
rebate_of-bounds a b = ground arith

-- The posted change is the floor and the rebate.
posted-OnGrid :
    (revenue : ℤ) (trade acc : ℕ) (f : FeeCalculationMicros)
    → (let u = revenue -ℤ pos trade in Made revenue trade acc (as_u64 (u -ℤ floored u)) f)
    → OnGrid f.posted_balance_change_micros
unfolding OnGrid
posted-OnGrid revenue trade acc f m =
    let u = revenue -ℤ pos trade in
    let q = div_euclid u 100 in
    let r = as_u64 (u -ℤ floored u) in
    let rebate = rebate_of (acc + r) (trade + r) in
    let j = rebate / 100 in
    (
      q +ℤ pos j,
      eq_of_parts f.posted_balance_change_micros (scale_ℤ (q +ℤ pos j) 100) (
          omega (
            arith,
            floor_100 u,
            -ℤ_parts revenue (pos trade),
            -ℤ_parts revenue (pos f.net_fee_micros),
            ap pos_part m.posted,
            ap neg_part m.posted,
            m.net,
            scale_ℤ_parts q 100,
            scale_ℤ_parts (q +ℤ pos j) 100,
            +ℤ_parts q (pos j),
            rebate_of-bounds (acc + r) (trade + r),
          )),
    )

Made-Posts :
    (revenue : ℤ) (trade acc : ℕ) (f : FeeCalculationMicros)
    → (let u = revenue -ℤ pos trade in Made revenue trade acc (as_u64 (u -ℤ floored u)) f)
    → Posts revenue trade acc f
Made-Posts revenue trade acc f m =
    let u = revenue -ℤ pos trade in
    let r = as_u64 (u -ℤ floored u) in
    let b = rebate_of-bounds (acc + r) (trade + r) in
    record {
      same_fee = m.trade_fee;
      charged = ground (arith, m.net, m.rebate, m.rounding_fee, b);
      carried = ground (arith, m.accumulator, m.rebate, m.rounding_fee, b);
      posted = m.posted;
      on_grid = posted-OnGrid revenue trade acc f m;
      rounded = ground (arith, m.rounding_fee, floor_100 u);
      whole_rebate = ground (arith, m.rebate, b);
      rebated = ground (arith, m.accumulator, m.net, b);
    }

-- When a fill is posted, the net fee and the rebate make up the trade fee and a rounding of less than
-- 100 microdollars; the accumulator takes the rounding and gives the rebate; the balance changes by
-- the revenue less the net fee, a multiple of 100 microdollars; and the rebate, itself such a
-- multiple, leaves less than 100 in the accumulator or in the net fee.
pub apply_fee_rounding_micros_lem :
    (revenue : ℤ) (trade acc : ℕ) (f : FeeCalculationMicros)
    → apply_fee_rounding_micros revenue trade acc ≡ ok f
    → Posts revenue trade acc f
unfolding apply_fee_rounding_micros
apply_fee_rounding_micros_lem revenue trade acc f h =
    elim (Option-cases (checked_sub_i128 revenue (pos trade))) [
      | inl out ↦ absurd (cc (rw (out) at h))
      | inr (u, unposted) ↦
          let e = checked_sub_i128-eq revenue (pos trade) u unposted in
          let made =
            posted_fill-Made revenue trade acc (as_u64 (u -ℤ floored u)) f (rw (unposted) at h) in
          Made-Posts revenue trade acc f (rw⁻¹ (e) made)
    ]

checked_sub_i128-total :
    (a : ℤ) (n : ℕ)
    → pos_part a < 2 ^ 64
    → neg_part a < 2 ^ 64
    → n < 2 ^ 64
    → checked_sub_i128 a (pos n) ≡ some (a -ℤ pos n)
unfolding checked_sub_i128 ◌-ℤ◌
checked_sub_i128-total a n p q h = ground arith

-- The calculation without the checks of its range.
abbrev unchecked : ℤ → ℕ → ℕ → ℕ → FeeCalculationMicros
unchecked revenue trade acc rounding =
    let rebate = rebate_of (acc + rounding) (trade + rounding) in
    record {
      trade_fee_micros = trade;
      rounding_fee_micros = rounding;
      rebate_micros = rebate;
      net_fee_micros = (trade + rounding) - rebate;
      posted_balance_change_micros = revenue -ℤ pos ((trade + rounding) - rebate);
      fee_accumulator_micros = (acc + rounding) - rebate;
    }

posted_fill-total :
    (revenue : ℤ) (trade acc rounding : ℕ)
    → pos_part revenue < 2 ^ 64
    → neg_part revenue < 2 ^ 64
    → trade + rounding < 2 ^ 64
    → acc + rounding < 2 ^ 64
    → posted_fill revenue trade acc rounding ≡ ok (unchecked revenue trade acc rounding)
unfolding posted_fill
posted_fill-total revenue trade acc rounding p q t a =
    let b = rebate_of (acc + rounding) (trade + rounding) in
    let bounds = rebate_of-bounds (acc + rounding) (trade + rounding) in
    let net_ok : try_u64 ((trade + rounding) - b) ≡ some ((trade + rounding) - b) = ground arith in
    let acc_ok : try_u64 ((acc + rounding) - b) ≡ some ((acc + rounding) - b) = ground arith in
    let rebate_ok : try_u64 b ≡ some b = ground arith in
    let posted_ok = checked_sub_i128-total revenue ((trade + rounding) - b) p q (omega arith) in
    rw (net_ok, acc_ok, rebate_ok, posted_ok) refl

-- A fill whose principal, fee and accumulator are in the `u64` range, with room for the rounding,
-- is always posted.
pub apply_fee_rounding_micros-total :
    (revenue : ℤ) (trade acc : ℕ)
    → pos_part revenue < 2 ^ 64
    → neg_part revenue < 2 ^ 64
    → trade + 99 < 2 ^ 64
    → acc + 99 < 2 ^ 64
    → (f : FeeCalculationMicros) × (apply_fee_rounding_micros revenue trade acc ≡ ok f)
      × Posts revenue trade acc f
unfolding apply_fee_rounding_micros
apply_fee_rounding_micros-total revenue trade acc p q t a =
    let u = revenue -ℤ pos trade in
    let r = floor_100 u in
    let rounding = as_u64 (u -ℤ floored u) in
    let made =
      posted_fill-total revenue trade acc rounding p q (omega (arith, r)) (omega (arith, r)) in
    let whole : apply_fee_rounding_micros revenue trade acc
        ≡ ok (unchecked revenue trade acc rounding) =
      rw (checked_sub_i128-total revenue trade p q (omega arith)) made in
    (
      unchecked revenue trade acc rounding,
      whole,
      apply_fee_rounding_micros_lem revenue trade acc (unchecked revenue trade acc rounding) whole,
    )

-- An order's fills, each a signed revenue and a trade fee, with the accumulator kept across them.
unfoldable pub order_fills : ℕ → List (ℤ × ℕ) → FeeResult (List FeeCalculationMicros)
order_fills acc [] = ok []
order_fills acc ((revenue, trade) ∷ fills) = apply_fee_rounding_micros revenue trade acc >>= λ f.
    order_fills f.fee_accumulator_micros fills >>= λ fs. ok (f ∷ fs)

abbrev pub total_net : List FeeCalculationMicros → ℕ
total_net [] = 0
total_net (f ∷ fs) = f.net_fee_micros + total_net fs

abbrev pub total_trade : List (ℤ × ℕ) → ℕ
total_trade [] = 0
total_trade ((revenue, trade) ∷ fills) = trade + total_trade fills

-- The accumulator after the fills.
abbrev pub last_accumulator : ℕ → List FeeCalculationMicros → ℕ
last_accumulator acc [] = acc
last_accumulator acc (f ∷ fs) = last_accumulator f.fee_accumulator_micros fs

-- Over an order's fills the fees charged, with the accumulator at the start, are the exact trade
-- fees with the accumulator at the end.
pub total_net-order_fills :
    (acc : ℕ) (fills : List (ℤ × ℕ)) (fs : List FeeCalculationMicros)
    → order_fills acc fills ≡ ok fs
    → total_net fs + acc ≡ total_trade fills + last_accumulator acc fs
unfolding order_fills
total_net-order_fills acc [] fs h = let e : fs ≡ [] = ground arith in rw (e) (omega arith)
total_net-order_fills acc ((revenue, trade) ∷ fills) fs h =
    let (f, first, h1) = >>=-eq-ok (apply_fee_rounding_micros revenue trade acc) _ h in
    let (rest, later, h2) =
      >>=-eq-ok (order_fills f.fee_accumulator_micros fills) (λ fs. ok (f ∷ fs)) h1 in
    let p = apply_fee_rounding_micros_lem revenue trade acc f first in
    let ih = total_net-order_fills f.fee_accumulator_micros fills rest later in
    let e : fs ≡ f ∷ rest = ground (arith, h2) in rw (e) (omega (arith, p.charged, p.carried, ih))
