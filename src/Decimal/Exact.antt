-- ===== src/Decimal/Exact.antt =====
-- A parsed decimal is canonical and has exactly the value of its text
-- (native/strategy_core_kernel/src/decimal.rs).
use strategy_core.Common.{
  ℕ, zero, suc, ◌+◌, ◌*◌, ◌/◌, ◌%◌, ◌^◌, ◌≡◌, ◌⊎◌, inl, inr, refl, sym, ap, subst, ◌∙◌, Bool, true,
  false, not, List, ◌++◌, length, ok, fail_if, ltb, ◌||◌, >>=-eq-ok, arith, ◌==◌, Bool-cases,
}
use native.Mathlib.Nat.{zero-add, pow-succ', mul_assoc, zero-mul}
use strategy_core.Common.Int.{ℤ, pos, negsuc, pos_part, neg_part, ◌-ℤ◌, -ℤ_parts, in_i64, ltb_ℤ}
use strategy_core.Decimal.{
  Decimal, DecimalError, Mantissa, abs_ℤ, signed, is_negative, tenth, divides_10, stripped,
  zero_scale, is_canonical, value_from, raised, scaled, fitted, decimal_of, in_i32, parse,
  parse_mantissa, exponent_of, split_once, is_exponent,
}

pub pow_add : (a b : ℕ) → 10 ^ (a + b) ≡ 10 ^ a * 10 ^ b
pow_add zero b = rw zero-add (omega arith)
pow_add (suc a) b =
    ap (λ n. 10 ^ n) (omega arith)
    ∙ (pow-succ' 10 (a + b)
        ∙ (ap (λ p. 10 * p) (pow_add a b)
            ∙ (sym (mul_assoc 10 (10 ^ a) (10 ^ b)) ∙ ap (λ p. p * 10 ^ b) (sym (pow-succ' 10 a)))))

-- A factor of ten, into a power.
power_down : (n d k : ℕ) → d ≡ n * 10 * 10 ^ k → d ≡ n * 10 ^ suc k
power_down n d k h = rw (pow-succ' 10 k) (omega (arith, h))

-- The integer has the sign, or is zero.
abbrev pub HasSign : Bool → ℤ → Type 0
HasSign b c = c ≡ signed b (abs_ℤ c)

abs-signed : (b : Bool) (n : ℕ) → abs_ℤ (signed b n) ≡ n
abs-signed false n = refl
abs-signed true zero = refl
abs-signed true (suc n) = refl

signed-HasSign : (b : Bool) (n : ℕ) → HasSign b (signed b n)
signed-HasSign b n = ap (signed b) (sym (abs-signed b n))

-- Scaling by a magnitude keeps the sign.
scale-HasSign :
    (b : Bool) (c : ℤ) (n : ℕ)
    → HasSign b c
    → (abs_ℤ c ≡ 0 → n ≡ 0)
    → HasSign b (signed (is_negative c) n)
scale-HasSign false (pos m) n h z = refl
scale-HasSign false (negsuc m) n h z = cc
scale-HasSign true (pos zero) n h z = rw (z refl) refl
scale-HasSign true (pos (suc m)) n h z = cc
scale-HasSign true (negsuc m) n h z = signed-HasSign true n

tens : (n r k : ℕ) → n % 10 ≡ 0 → n / 10 ≡ r * 10 ^ k → n ≡ r * 10 ^ suc k
tens n r k h e = rw (pow-succ' 10 k) (omega (arith, h, e))

-- What stripping the zeros keeps.
record Stripped (c : ℤ) (s : ℕ) (r : ℤ × ℕ) : Type 0 where
  times : ℕ
  fewer : s ≡ r.1 + times
  same : abs_ℤ c ≡ abs_ℤ r.0 * 10 ^ times
  sign : (b : Bool) → HasSign b c → HasSign b r.0
  done : (r.1 ≡ 0) ⊎ (divides_10 r.0 ≡ false)

stripped-Stripped : (c : ℤ) (s : ℕ) → Stripped c s (stripped c s)
unfolding stripped
stripped-Stripped c zero = record {
  times = 0;
  fewer = refl;
  same = omega arith;
  sign = λ b h. h;
  done = inl refl;
}
stripped-Stripped c (suc s) = elim (Bool-cases (divides_10 c)) [
  | inr ends ↦ rw ends (record {
    times = 0;
    fewer = omega arith;
    same = omega arith;
    sign = λ b h. h;
    done = inr ends;
  })
  | inl goes ↦
      let r = stripped-Stripped (tenth c) s in
      rw goes (record {
        times = suc r.times;
        fewer = omega (arith, r.fewer);
        same =
            tens (abs_ℤ c) _ r.times (ground arith)
              (sym (abs-signed (is_negative c) (abs_ℤ c / 10)) ∙ r.same);
        sign = λ b h. r.sign b (scale-HasSign b c (abs_ℤ c / 10) h (λ z. omega (arith, z)));
        done = r.done;
      })
]

-- What raising keeps.
raised-eq :
    (k : ℕ) (c d : ℤ)
    → raised k c ≡ ok d
    → (abs_ℤ d ≡ abs_ℤ c * 10 ^ k) × ((b : Bool) → HasSign b c → HasSign b d)
unfolding raised
raised-eq zero c d e = (ground arith, λ b h. subst (HasSign b) (ground arith) h)
raised-eq (suc k) c d e =
    let (same, sign) = raised-eq k (signed (is_negative c) (abs_ℤ c * 10)) d (ground arith) in
    (
      power_down (abs_ℤ c) (abs_ℤ d) k
          (same ∙ ap (λ n. n * 10 ^ k) (abs-signed (is_negative c) (abs_ℤ c * 10))),
      λ b h. sign b (scale-HasSign b c (abs_ℤ c * 10) h (λ z. omega (arith, z))),
    )

-- The value of a decimal that stands for an integer, a power of ten up or down.
record Scaled (c : ℤ) (scale : ℤ) (r : ℤ × ℕ) : Type 0 where
  same : abs_ℤ r.0 * 10 ^ pos_part scale ≡ abs_ℤ c * 10 ^ (r.1 + neg_part scale)
  sign : (b : Bool) → HasSign b c → HasSign b r.0

scaled-Scaled : (c scale : ℤ) (r : ℤ × ℕ) → scaled c scale ≡ ok r → Scaled c scale r
unfolding scaled
scaled-Scaled c (pos s) r e =
    let eq : (c, s) ≡ r = ground arith in
    subst (Scaled c (pos s)) eq
      (record { same = ap (λ k. abs_ℤ c * 10 ^ k) (omega arith); sign = λ b h. h })
scaled-Scaled c (negsuc k) r e =
    let (d, up, last) = >>=-eq-ok (raised (suc k) c) _ e in
    let (same, sign) = raised-eq (suc k) c d up in
    let eq : (d, 0) ≡ r = ground arith in
    subst (Scaled c (negsuc k)) eq
      (record { same = rw zero-add (omega (arith, same)); sign = sign })

join : (n a b : ℕ) → n * 10 ^ a * 10 ^ b ≡ n * 10 ^ (a + b)
join n a b = mul_assoc n (10 ^ a) (10 ^ b) ∙ ap (λ p. n * p) (sym (pow_add a b))

cancel : (k a b : ℕ) → a * 10 ^ k ≡ b * 10 ^ k → a ≡ b
cancel zero a b h = omega (arith, h)
cancel (suc k) a b h =
    cancel k a b (
      omega
        (arith, sym (ap (λ p. a * p) (pow-succ' 10 k)) ∙ (h ∙ ap (λ p. b * p) (pow-succ' 10 k))))

-- Of a coefficient's two steps, the whole change of scale.
combined :
    (v c c1 s s1 times up down f plus minus : ℕ)
    → c1 * 10 ^ up ≡ v * 10 ^ (s1 + down)
    → s1 ≡ s + times
    → c1 ≡ c * 10 ^ times
    → up + plus ≡ down + f + minus
    → c * 10 ^ (f + minus) ≡ v * 10 ^ (s + plus)
combined v c c1 s s1 times up down f plus minus scaling fewer stripping balance =
    cancel (down + times) (c * 10 ^ (f + minus)) (v * 10 ^ (s + plus)) (
      join c (f + minus) (down + times)
      ∙ (ap (λ k. c * 10 ^ k) (omega (arith, balance))
          ∙ (sym (join c times (up + plus))
              ∙ (ap (λ n. n * 10 ^ (up + plus)) (sym stripping)
                  ∙ (sym (join c1 up plus)
                      ∙ (ap (λ n. n * 10 ^ plus) scaling
                          ∙ (join v (s1 + down) plus
                              ∙ (ap (λ k. v * 10 ^ k) (omega (arith, fewer))
                                  ∙ sym (join v (s + plus) (down + times))))))))))

zero_value : (v k : ℕ) → v * 10 ^ k ≡ 0 → v ≡ 0
zero_value v k h = cancel k v 0 (omega (arith, h))

-- A canonical 64-bit decimal with the sign and the value of a mantissa and an exponent.
pub record IsExact (m : Mantissa) (exponent : ℤ) (d : Decimal) : Type 0 where
  pub canonical : is_canonical d ≡ true
  pub fits : in_i64 d.coefficient ≡ true
  pub sign : d.coefficient ≡ signed m.negative (abs_ℤ d.coefficient)
  pub value :
      abs_ℤ d.coefficient * 10 ^ (length m.fraction + neg_part exponent)
      ≡ value_from 0 (m.whole ++ m.fraction) * 10 ^ (d.scale + pos_part exponent)

zero_scale-value :
    (v p f : ℕ) (r : ℤ × ℕ)
    → abs_ℤ r.0 * 10 ^ f ≡ v * 10 ^ (r.1 + p)
    → abs_ℤ (zero_scale r).coefficient * 10 ^ f ≡ v * 10 ^ ((zero_scale r).scale + p)
zero_scale-value v p f r h = elim (Bool-cases (abs_ℤ r.0 == 0)) [
  | inr other ↦ rw other h
  | inl none_left ↦
      let gone : abs_ℤ r.0 ≡ 0 = ground arith in
      let left = ap (λ n. n * 10 ^ f) gone ∙ zero-mul (10 ^ f) in
      let empty = zero_value v (r.1 + p) (sym h ∙ left) in
      rw none_left (left ∙ sym (ap (λ n. n * 10 ^ (0 + p)) empty ∙ zero-mul (10 ^ (0 + p))))
]

fitted-eq :
    (x d : Decimal)
    → fitted x ≡ ok d
    → (x ≡ d) × (is_canonical x ≡ true) × (in_i64 x.coefficient ≡ true)
unfolding fitted
fitted-eq x d e = (ground arith, ground arith, ground arith)

decimal_of-IsExact :
    (m : Mantissa) (exponent : ℤ) (d : Decimal)
    → decimal_of m exponent ≡ ok d
    → IsExact m exponent d
unfolding decimal_of
decimal_of-IsExact m exponent d e =
    let v = value_from 0 (m.whole ++ m.fraction) in
    let scale = pos (length m.fraction) -ℤ exponent in
    let (u1, digits, e1) = >>=-eq-ok (fail_if (not (ltb v (2 ^ 127))) DecimalError.inexact) _ e in
    let (u2, width, e2) =
      >>=-eq-ok
        (fail_if (not (ltb (length m.fraction) (2 ^ 31)) || not (in_i32 scale))
          DecimalError.inexact)
        _ e1 in
    let (u3, low, e3) = >>=-eq-ok (fail_if (ltb_ℤ scale (negsuc 37)) DecimalError.inexact) _ e2 in
    let (r, up, e4) = >>=-eq-ok (scaled (signed m.negative v) scale) _ e3 in
    let first = scaled-Scaled (signed m.negative v) scale r up in
    let second = stripped-Stripped r.0 r.1 in
    let (same, canonical, fits) = fitted-eq (zero_scale (stripped r.0 r.1)) d e4 in
    let balance = -ℤ_parts (pos (length m.fraction)) exponent in
    subst (IsExact m exponent) same (record {
      canonical = canonical;
      fits = fits;
      sign = second.sign m.negative (first.sign m.negative (signed-HasSign m.negative v));
      value =
          zero_scale-value v (pos_part exponent) (length m.fraction + neg_part exponent)
            (stripped r.0 r.1)
            (combined v (abs_ℤ (stripped r.0 r.1).0) (abs_ℤ r.0) (stripped r.0 r.1).1 r.1
              second.times (pos_part scale) (neg_part scale) (length m.fraction) (pos_part exponent)
              (neg_part exponent)
              (first.same ∙ ap (λ n. n * 10 ^ (r.1 + neg_part scale)) (abs-signed m.negative v))
              second.fewer second.same (omega (arith, balance)));
    })

-- A text that parses has a mantissa and an exponent of which the decimal is canonical and exact: it
-- fits 64 bits, has the mantissa's sign unless it is zero, and its coefficient over ten to the scale
-- is the number of the mantissa's digits times ten to the exponent, over ten to the number of
-- fraction digits.
pub parse-IsExact :
    (text : List ℕ) (d : Decimal)
    → parse text ≡ ok d
    → (m : Mantissa) × (exponent : ℤ) × (digits : List ℕ) × (exponent_of text
          (split_once is_exponent text)
        ≡ ok (digits, exponent))
      × (parse_mantissa digits ≡ ok m)
      × IsExact m exponent d
unfolding parse
parse-IsExact text d e =
    let ((digits, exponent), first, e1) =
      >>=-eq-ok (exponent_of text (split_once is_exponent text)) _ e in
    let (m, second, e2) = >>=-eq-ok (parse_mantissa digits) _ e1 in
    (m, exponent, digits, first, second, decimal_of-IsExact m exponent d e2)
