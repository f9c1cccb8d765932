-- ===== src/Decimal/Digits.antt =====
-- The digits that the printer writes (native/strategy_core_kernel/src/decimal.rs).
use strategy_core.Common.{
  ℕ, zero, suc, ◌+◌, ◌-◌, ◌*◌, ◌/◌, ◌%◌, ◌≤◌, ◌<◌, ◌≡◌, refl, ap, ◌∙◌, Bool, true, false, List, [],
  ◌∷◌, ◌++◌, length, length-append, take, drop, arith, ltb, Bool-cases, inl, inr,
}
use strategy_core.Wire.Text.{all, is_ascii_digit}
use strategy_core.Decimal.{value_from, is_empty}
use strategy_core.Decimal.Print.{digits_of, to_text, zeros, padded, whole_of, fraction_of}

pub all-append :
    (p : ℕ → Bool) (xs ys : List ℕ) → all p xs ≡ true → all p ys ≡ true → all p (xs ++ ys) ≡ true
all-append p [] ys h k = k
all-append p (x ∷ xs) ys h k = ground (arith, all-append p xs ys)

pub value_from-append :
    (acc : ℕ) (xs ys : List ℕ) → value_from acc (xs ++ ys) ≡ value_from (value_from acc xs) ys
value_from-append acc [] ys = refl
value_from-append acc (x ∷ xs) ys = value_from-append (acc * 10 + (x - b'0')) xs ys

value_from-digits_of : (f n : ℕ) → n < f → value_from 0 (digits_of f n) ≡ n
unfolding digits_of
value_from-digits_of zero n h = absurd (omega arith)
value_from-digits_of (suc f) n h = elim (Bool-cases (ltb n 10)) [
  | inl small ↦ rw small (omega arith)
  | inr large ↦ rw large (
      value_from-append 0 (digits_of f (n / 10)) ((b'0' + n % 10) ∷ [])
      ∙ ground (arith, value_from-digits_of f (n / 10)))
]

pub value_from-to_text : (n : ℕ) → value_from 0 (to_text n) ≡ n
unfolding to_text
value_from-to_text n = value_from-digits_of (suc n) n (omega arith)

all-digits_of : (f n : ℕ) → all is_ascii_digit (digits_of f n) ≡ true
unfolding digits_of
all-digits_of zero n = refl
all-digits_of (suc f) n = elim (Bool-cases (ltb n 10)) [
  | inl small ↦ rw small (ground arith)
  | inr large ↦ rw large (
      all-append is_ascii_digit (digits_of f (n / 10)) ((b'0' + n % 10) ∷ [])
        (all-digits_of f (n / 10)) (ground arith))
]

pub all-to_text : (n : ℕ) → all is_ascii_digit (to_text n) ≡ true
unfolding to_text
all-to_text n = all-digits_of (suc n) n

pub some_digits : (n : ℕ) → 0 < length (to_text n)
unfolding to_text digits_of
some_digits n = ground (arith, length-append (digits_of n (n / 10)) ((b'0' + n % 10) ∷ []))

zeros-value : (n : ℕ) (xs : List ℕ) → value_from 0 (zeros n ++ xs) ≡ value_from 0 xs
unfolding zeros
zeros-value zero xs = refl
zeros-value (suc n) xs = zeros-value n xs

zeros-digits : (n : ℕ) → all is_ascii_digit (zeros n) ≡ true
unfolding zeros
zeros-digits zero = refl
zeros-digits (suc n) = zeros-digits n

length-zeros : (n : ℕ) → length (zeros n) ≡ n
unfolding zeros
length-zeros zero = refl
length-zeros (suc n) = ap suc (length-zeros n)

take-drop : (n : ℕ) (xs : List ℕ) → take n xs ++ drop n xs ≡ xs
take-drop zero xs = refl
take-drop (suc n) [] = refl
take-drop (suc n) (x ∷ xs) = ap (λ ys. x ∷ ys) (take-drop n xs)

all-take : (p : ℕ → Bool) (n : ℕ) (xs : List ℕ) → all p xs ≡ true → all p (take n xs) ≡ true
all-take p zero xs h = refl
all-take p (suc n) [] h = refl
all-take p (suc n) (x ∷ xs) h = ground (arith, all-take p n xs)

all-drop : (p : ℕ → Bool) (n : ℕ) (xs : List ℕ) → all p xs ≡ true → all p (drop n xs) ≡ true
all-drop p zero xs h = h
all-drop p (suc n) [] h = refl
all-drop p (suc n) (x ∷ xs) h = ground (arith, all-drop p n xs)

length-drop : (n : ℕ) (xs : List ℕ) → length (drop n xs) ≡ length xs - n
length-drop zero xs = omega arith
length-drop (suc n) [] = omega arith
length-drop (suc n) (x ∷ xs) = omega (arith, length-drop n xs)

length-take : (n : ℕ) (xs : List ℕ) → n ≤ length xs → length (take n xs) ≡ n
length-take zero xs h = refl
length-take (suc n) [] h = absurd (omega arith)
length-take (suc n) (x ∷ xs) h = ap suc (length-take n xs (omega arith))

-- What the digits around the point keep of the number's digits.
pub record Split (scale : ℕ) (digits whole fraction : List ℕ) : Type 0 where
  pub same : value_from 0 (whole ++ fraction) ≡ value_from 0 digits
  pub whole_digits : all is_ascii_digit whole ≡ true
  pub fraction_digits : all is_ascii_digit fraction ≡ true
  pub some_whole : is_empty whole ≡ false
  pub places : length fraction ≡ scale

pub not_empty : (xs : List ℕ) → 0 < length xs → is_empty xs ≡ false
not_empty [] h = absurd (omega arith)
not_empty (x ∷ xs) h = refl

pub digits-Split :
    (scale : ℕ) (digits : List ℕ)
    → all is_ascii_digit digits ≡ true
    → Split scale digits (whole_of scale digits) (fraction_of scale digits)
unfolding whole_of fraction_of padded
digits-Split scale digits h = elim (Bool-cases (ltb scale (length digits))) [
  | inl long ↦ rw long (record {
    same = ap (value_from 0) (take-drop (length digits - scale) digits);
    whole_digits = all-take is_ascii_digit (length digits - scale) digits h;
    fraction_digits = all-drop is_ascii_digit (length digits - scale) digits h;
    some_whole =
        not_empty _ (ground (arith, length-take (length digits - scale) digits (omega arith)));
    places = ground (arith, length-drop (length digits - scale) digits);
  })
  | inr short ↦ rw short (record {
    same = zeros-value (scale - length digits) digits;
    whole_digits = refl;
    fraction_digits =
        all-append is_ascii_digit (zeros (scale - length digits)) digits
          (zeros-digits (scale - length digits)) h;
    some_whole = refl;
    places = ground (
      arith,
      length-append (zeros (scale - length digits)) digits,
      length-zeros (scale - length digits),
    );
  })
]
