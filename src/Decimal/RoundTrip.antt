-- ===== src/Decimal/RoundTrip.antt =====
-- What the parser makes of a printed decimal (native/strategy_core_kernel/src/decimal.rs).
use strategy_core.Common.{
  ℕ, zero, suc, ◌^◌, ◌<◌, ◌≡◌, ◌⊎◌, inl, inr, refl, ap, ◌∙◌, Bool, true, false, not, ◌||◌, none,
  some, List, [], ◌∷◌, ◌++◌, length, Result, ok, ◌>>◌, fail_if, arith, ltb, ◌==◌, Bool-cases,
}
use strategy_core.Common.Int.{ℤ, pos, negsuc, ◌-ℤ◌, in_i64, ltb_ℤ}
use strategy_core.Wire.Text.{all, is_ascii_digit}
use strategy_core.Decimal.{
  Decimal, DecimalError, Mantissa, abs_ℤ, signed, is_negative, divides_10, stripped, zero_scale,
  normalized, is_canonical, value_from, sign_of, unsigned_of, is_empty, split_once, parse_mantissa,
  mantissa_of, parts, is_point, is_exponent, in_i32, fitted, decimal_from, decimal_of, parse,
}
use strategy_core.Decimal.Print.{to_text, whole_of, fraction_of, sign_text, body_of, display}
use strategy_core.Decimal.Digits.{
  all-append, not_empty, value_from-append, value_from-to_text, all-to_text, some_digits, Split,
  digits-Split,
}

-- A code point that a printed decimal may hold.
abbrev printed : ℕ → Bool
printed c = is_ascii_digit c || c == b'.' || c == b'-'

split_once-none :
    (p : ℕ → Bool) (q : ℕ → Bool) (xs : List ℕ)
    → ((c : ℕ) → q c ≡ true → p c ≡ false)
    → all q xs ≡ true
    → split_once p xs ≡ none
unfolding split_once
split_once-none p q [] apart h = refl
split_once-none p q (x ∷ xs) apart h = ground (arith, apart x, split_once-none p q xs apart)

split_once-at :
    (p : ℕ → Bool) (q : ℕ → Bool) (xs : List ℕ) (c : ℕ) (ys : List ℕ)
    → ((c : ℕ) → q c ≡ true → p c ≡ false)
    → all q xs ≡ true
    → p c ≡ true
    → split_once p (xs ++ c ∷ ys) ≡ some (xs, ys)
unfolding split_once
split_once-at p q [] c ys apart h k = ground arith
split_once-at p q (x ∷ xs) c ys apart h k = ground (arith, apart x, split_once-at p q xs c ys apart)

-- A canonical decimal is what its own digits give.
stripped-canonical : (c : ℤ) (s : ℕ) → (s ≡ 0) ⊎ (divides_10 c ≡ false) → stripped c s ≡ (c, s)
unfolding stripped
stripped-canonical c zero h = refl
stripped-canonical c (suc s) (inl h) = absurd (omega (arith, h))
stripped-canonical c (suc s) (inr h) = rw h refl

canonical-cases :
    (d : Decimal) → is_canonical d ≡ true → (d.scale ≡ 0) ⊎ (divides_10 d.coefficient ≡ false)
unfolding is_canonical
canonical-cases d h = elim (Bool-cases (divides_10 d.coefficient)) [
  | inr ends ↦ inr ends
  | inl goes ↦ inl (ground arith)
]

normalized-canonical : (d : Decimal) → is_canonical d ≡ true → normalized d ≡ d
unfolding normalized is_canonical
normalized-canonical d h =
    ap zero_scale (stripped-canonical d.coefficient d.scale (canonical-cases d h)) ∙ ground arith

signed-abs : (c : ℤ) → signed (is_negative c) (abs_ℤ c) ≡ c
signed-abs (pos n) = refl
signed-abs (negsuc n) = refl

abs-in_i64 : (c : ℤ) → in_i64 c ≡ true → abs_ℤ c < 2 ^ 127
abs-in_i64 (pos n) h = ground arith
abs-in_i64 (negsuc n) h = ground arith

small_scale : (d : Decimal) → is_canonical d ≡ true → d.scale < 19
unfolding is_canonical
small_scale d h = ground arith

fitted-canonical :
    (d : Decimal) → is_canonical d ≡ true → in_i64 d.coefficient ≡ true → fitted d ≡ ok d
unfolding fitted is_canonical
fitted-canonical d h k = ground arith

passes :
    (c : Bool) (e : DecimalError) (rest result : Result DecimalError Decimal)
    → c ≡ false
    → rest ≡ result
    → (fail_if c e >> rest) ≡ result
passes false e rest result h k = k
passes true e rest result h k = cc

minus_zero : (n : ℕ) → pos n -ℤ pos 0 ≡ pos n
unfolding ◌-ℤ◌
minus_zero n = ground arith

decimal_from-canonical :
    (d : Decimal)
    → is_canonical d ≡ true
    → in_i64 d.coefficient ≡ true
    → decimal_from (is_negative d.coefficient) (abs_ℤ d.coefficient) d.scale (pos d.scale) ≡ ok d
unfolding decimal_from
decimal_from-canonical d h k =
    let last : fitted (normalized d) ≡ ok d =
      ap fitted (normalized-canonical d h) ∙ fitted-canonical d h k in
    let places = small_scale d h in
    let size = abs-in_i64 d.coefficient k in
    passes (not (ltb (abs_ℤ d.coefficient) (2 ^ 127))) _ _ _ (ground arith) (
      passes (not (ltb d.scale (2 ^ 31)) || not (in_i32 (pos d.scale))) _ _ _ (ground arith) (
        passes (ltb_ℤ (pos d.scale) (negsuc 37)) _ _ _ (ground arith) (
          ap (λ c. fitted (normalized (record { coefficient = c; scale = d.scale })))
            (signed-abs d.coefficient)
          ∙ last)))

decimal_of-canonical :
    (m : Mantissa) (d : Decimal)
    → is_canonical d ≡ true
    → in_i64 d.coefficient ≡ true
    → m.negative ≡ is_negative d.coefficient
    → value_from 0 (m.whole ++ m.fraction) ≡ abs_ℤ d.coefficient
    → length m.fraction ≡ d.scale
    → decimal_of m (pos 0) ≡ ok d
unfolding decimal_of
decimal_of-canonical m d h k negative value places =
    rw (minus_zero (length m.fraction), negative, value, places) (decimal_from-canonical d h k)

abbrev starts : List ℕ → Bool
starts [] = false
starts (x ∷ xs) = is_ascii_digit x

starts-append :
    (xs ys : List ℕ) → all is_ascii_digit xs ≡ true → is_empty xs ≡ false → starts (xs ++ ys) ≡ true
starts-append [] ys h e = cc
starts-append (x ∷ xs) ys h e = ground arith

starts-digits :
    (xs : List ℕ) → all is_ascii_digit xs ≡ true → is_empty xs ≡ false → starts xs ≡ true
starts-digits [] h e = cc
starts-digits (x ∷ xs) h e = ground arith

signed-parts :
    (negative : Bool) (body : List ℕ)
    → starts body ≡ true
    → (sign_of (sign_text negative ++ body) ≡ negative)
      × (unsigned_of (sign_text negative ++ body) ≡ body)
signed-parts negative [] h = cc
signed-parts true (x ∷ xs) h = (refl, refl)
signed-parts false (x ∷ xs) h = (ground arith, ground arith)

-- What a mantissa is read from, and what it keeps of the digits.
record Reads (negative : Bool) (scale : ℕ) (digits : List ℕ) (body : List ℕ) : Type 0 where
  mantissa : Mantissa
  started : starts body ≡ true
  read : mantissa_of negative (parts body (split_once is_point body)) ≡ ok mantissa
  sign : mantissa.negative ≡ negative
  value : value_from 0 (mantissa.whole ++ mantissa.fraction) ≡ value_from 0 digits
  places : length mantissa.fraction ≡ scale

whole-Reads :
    (negative : Bool) (digits : List ℕ)
    → all is_ascii_digit digits ≡ true
    → is_empty digits ≡ false
    → Reads negative 0 digits digits
unfolding mantissa_of
whole-Reads negative digits h e = record {
  mantissa = record { negative = negative; whole = digits; fraction = [] };
  started = starts-digits digits h e;
  read =
      ap (λ found. mantissa_of negative (parts digits found))
        (split_once-none is_point is_ascii_digit digits (λ c k. ground arith) h)
      ∙ ground arith;
  sign = refl;
  value = value_from-append 0 digits [];
  places = refl;
}

point-Reads :
    (negative : Bool) (scale : ℕ) (digits whole fraction : List ℕ)
    → 0 < scale
    → Split scale digits whole fraction
    → Reads negative scale digits (whole ++ b'.' ∷ fraction)
unfolding mantissa_of
point-Reads negative scale digits whole fraction h s = record {
  mantissa = record { negative = negative; whole = whole; fraction = fraction };
  started = starts-append whole (b'.' ∷ fraction) s.whole_digits s.some_whole;
  read =
      ap (λ found. mantissa_of negative (parts (whole ++ b'.' ∷ fraction) found))
        (split_once-at is_point is_ascii_digit whole b'.' fraction (λ c k. ground arith)
          s.whole_digits refl)
      ∙ ground
          (arith, s.whole_digits, s.fraction_digits, s.some_whole, s.places, not_empty fraction);
  sign = refl;
  value = s.same;
  places = s.places;
}

body-Reads :
    (negative : Bool) (scale : ℕ) (digits : List ℕ)
    → all is_ascii_digit digits ≡ true
    → is_empty digits ≡ false
    → Reads negative scale digits (body_of scale digits)
body-Reads negative zero digits h e = whole-Reads negative digits h e
body-Reads negative (suc s) digits h e =
    point-Reads negative (suc s) digits (whole_of (suc s) digits) (fraction_of (suc s) digits)
      (omega arith) (digits-Split (suc s) digits h)

all-weaken :
    (p q : ℕ → Bool) (xs : List ℕ)
    → ((c : ℕ) → p c ≡ true → q c ≡ true)
    → all p xs ≡ true
    → all q xs ≡ true
all-weaken p q [] weaker h = refl
all-weaken p q (x ∷ xs) weaker h = ground (arith, weaker x, all-weaken p q xs weaker)

all-body :
    (scale : ℕ) (digits : List ℕ)
    → all is_ascii_digit digits ≡ true
    → all printed (body_of scale digits) ≡ true
all-body zero digits h = all-weaken is_ascii_digit printed digits (λ c k. ground arith) h
all-body (suc s) digits h =
    let parts_of = digits-Split (suc s) digits h in
    all-append printed (whole_of (suc s) digits) (b'.' ∷ fraction_of (suc s) digits)
      (all-weaken is_ascii_digit printed (whole_of (suc s) digits) (λ c k. ground arith)
        parts_of.whole_digits)
      (all-weaken is_ascii_digit printed (fraction_of (suc s) digits) (λ c k. ground arith)
        parts_of.fraction_digits)

all-signed :
    (negative : Bool) (body : List ℕ)
    → all printed body ≡ true
    → all printed (sign_text negative ++ body) ≡ true
all-signed true body h = h
all-signed false body h = h

-- A canonical decimal of 64 bits is what its printed text parses to.
pub parse-display :
    (d : Decimal) → is_canonical d ≡ true → in_i64 d.coefficient ≡ true → parse (display d) ≡ ok d
unfolding parse parse_mantissa display
parse-display d h k =
    let digits = to_text (abs_ℤ d.coefficient) in
    let body = body_of d.scale digits in
    let negative = is_negative d.coefficient in
    let fine = all-to_text (abs_ℤ d.coefficient) in
    let r =
      body-Reads negative d.scale digits fine
        (not_empty digits (some_digits (abs_ℤ d.coefficient))) in
    let (sign, unsigned) = signed-parts negative body r.started in
    let plain =
      split_once-none is_exponent printed (display d) (λ c e. ground arith)
        (all-signed negative body (all-body d.scale digits fine)) in
    let read =
      ap (λ u. mantissa_of (sign_of (display d)) (parts u (split_once is_point u))) unsigned
      ∙ (ap (λ b. mantissa_of b (parts body (split_once is_point body))) sign ∙ r.read) in
    rw (plain, read)
      (decimal_of-canonical r.mantissa d h k r.sign
        (r.value ∙ value_from-to_text (abs_ℤ d.coefficient)) r.places)
