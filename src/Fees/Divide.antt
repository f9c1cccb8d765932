-- ===== src/Fees/Divide.antt =====
-- The arithmetic of the trade fee (`trade_fee_micros` in
-- native/strategy_core_kernel/src/fees.rs): the reduction of the rate, the product and its ceiling.
use strategy_core.Common.{
  ℕ, zero, suc, ◌+◌, ◌-◌, ◌*◌, ◌/◌, ◌%◌, ◌^◌, ◌≤◌, ◌<◌, ◌≡◌, ap, inl, inr, some, [], ◌∷◌, arith,
  Bool-cases, ◌==◌,
}
use native.Mathlib.Nat.{div-add-mod, mod-lt, mul-le-mul_right, mul-lt-mul_of_pos_right}
use strategy_core.Fees.Trade.{gcd_loop, checked_product, div_ceil}

abbrev pub Divides : ℕ → ℕ → Type 0
Divides g n = (k : ℕ) × (n ≡ k * g)

pub combine : (d r q m g a b : ℕ) → r * q + m ≡ d → r ≡ a * g → m ≡ b * g → d ≡ (q * a + b) * g
combine d r q m g a b h e f = let h' = rw (e, f) at h in omega (arith, h')

-- With fuel for the remainder the loop ends at a common divisor.
pub gcd_loop-Divides :
    (fuel d r : ℕ)
    → 0 < d
    → r ≤ fuel
    → let g = gcd_loop fuel d r in (0 < g) × Divides g d × Divides g r
unfolding gcd_loop
gcd_loop-Divides zero d r p h = (p, (1, omega arith), (0, omega arith))
gcd_loop-Divides (suc fuel) d r p h = elim (Bool-cases (r == 0)) [
  | inl done ↦ rw (done, gcd_loop) (p, (1, omega arith), (0, ground arith))
  | inr more ↦
      let r_pos : 0 < r = ground arith in
      let small = mod-lt d r_pos in
      let (g_pos, (a, r_eq), (b, m_eq)) =
        gcd_loop-Divides fuel r (d % r) r_pos (omega (arith, small)) in
      let g = gcd_loop fuel r (d % r) in
      rw (more, gcd_loop)
        (
          g_pos,
          ((d / r) * a + b, combine d r (d / r) (d % r) g a b (div-add-mod d r) r_eq m_eq),
          (a, r_eq),
        )
]

-- The least multiple of a positive number that is not below another.
pub div_ceil-bounds : (n d : ℕ) → 0 < d → (n ≤ div_ceil n d * d) × (div_ceil n d * d < n + d)
div_ceil-bounds n d p = elim (Bool-cases (n % d == 0)) [
  | inl whole ↦ rw (whole) (ground (arith, div-add-mod n d))
  | inr part ↦ rw (part) (ground (arith, div-add-mod n d, mod-lt n p))
]

-- The product, when no step leaves the range.
pub checked_product-eq :
    (a p q m v : ℕ) (P n : ℕ)
    → checked_product v (a ∷ p ∷ P ∷ q ∷ m ∷ []) ≡ some n
    → n ≡ v * a * p * P * q * m
unfolding checked_product
checked_product-eq a p q m v P n h = ground arith

pub scaled :
    (fee a b g p P q m D rate n : ℕ)
    → 0 < g
    → D ≡ b * g
    → rate ≡ a * g
    → n ≡ 1 * a * p * P * q * m
    → n ≤ fee * b
    → fee * b < n + b
    → (rate * p * P * q * m ≤ fee * D) × (fee * D < rate * p * P * q * m + D)
scaled fee a b g p P q m D rate n g_pos d_eq r_eq n_eq low high =
    let l = mul-le-mul_right g low in
    let h = mul-lt-mul_of_pos_right high g_pos in
    rw (d_eq, r_eq) (ground (arith, l, h, ap (λ x. x * g) n_eq))

pub scaled_over :
    (a b g p P q m D rate : ℕ)
    → 0 < g
    → D ≡ b * g
    → rate ≡ a * g
    → (2 ^ 64 - 1) * b < 1 * a * p * P * q * m
    → (2 ^ 64 - 1) * D < rate * p * P * q * m
scaled_over a b g p P q m D rate g_pos d_eq r_eq over =
    let h = mul-lt-mul_of_pos_right over g_pos in rw (d_eq, r_eq) (omega (arith, h))
