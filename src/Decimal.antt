-- ===== src/Decimal.antt =====
-- Exact decimals: `Decimal`, its parser and its printer
-- (native/strategy_core_kernel/src/decimal.rs). A text is the list of its code points, which are its
-- bytes where the parser counts them. The conversion to binary floating point is left out.
pub mod Exact
pub mod Print
pub mod Digits
pub mod RoundTrip
use strategy_core.Common.{
  ℕ, zero, suc, ◌+◌, ◌-◌, ◌*◌, ◌/◌, ◌%◌, ◌^◌, Bool, true, false, not, ◌&&◌, ◌||◌, Option, none,
  some, List, [], ◌∷◌, ◌++◌, length, any, Result, ok, err, ◌>>=◌, ◌>>◌, ok_or, fail_if, ltb, leb,
  ◌==◌, if◌then◌else◌, take, drop,
}
use strategy_core.Common.Int.{ℤ, pos, negsuc, ◌-ℤ◌, in_i64, in_i128, ltb_ℤ}
use strategy_core.Wire.Text.{all, is_ascii_digit}

-- `MAX_DECIMAL_SCALE`
abbrev pub max_decimal_scale : ℕ
max_decimal_scale = 18

pub data DecimalError : Type 0 where
  inexact : DecimalError

pub record Decimal : Type 0 where
  pub coefficient : ℤ
  pub scale : ℕ

-- The magnitude of an integer, and an integer of a sign and a magnitude.
abbrev pub abs_ℤ : ℤ → ℕ
abs_ℤ (pos n) = n
abs_ℤ (negsuc n) = suc n

abbrev pub signed : Bool → ℕ → ℤ
signed false n = pos n
signed true zero = pos 0
signed true (suc n) = negsuc n

abbrev pub is_negative : ℤ → Bool
is_negative (pos n) = false
is_negative (negsuc n) = true

-- `coefficient / 10`, truncated
abbrev pub tenth : ℤ → ℤ
tenth c = signed (is_negative c) (abs_ℤ c / 10)

-- `coefficient % 10 == 0`
abbrev pub divides_10 : ℤ → Bool
divides_10 c = abs_ℤ c % 10 == 0

-- `while scale > 0 && coefficient % 10 == 0`
unfoldable pub stripped : ℤ → ℕ → ℤ × ℕ
stripped c zero = (c, zero)
stripped c (suc s) = let rest = stripped (tenth c) s in if divides_10 c then rest else (c, suc s)

-- `if coefficient == 0 { scale = 0 }`
abbrev pub zero_scale : ℤ × ℕ → Decimal
zero_scale (c, s) = record { coefficient = c; scale = if abs_ℤ c == 0 then 0 else s }

-- `Decimal::normalized`, which the parser does on wider integers.
unfoldable pub normalized : Decimal → Decimal
unfolding stripped
normalized d = zero_scale (stripped d.coefficient d.scale)

-- `Decimal::from_i64`
unfoldable pub from_i64 : ℤ → Decimal
unfolding normalized
from_i64 value = normalized (record { coefficient = value; scale = 0 })

-- `Decimal::is_canonical`
unfoldable pub is_canonical : Decimal → Bool
is_canonical d =
    leb d.scale max_decimal_scale
    && (d.scale == 0 || not (divides_10 d.coefficient))
    && (not (abs_ℤ d.coefficient == 0) || d.scale == 0)

-- The value of decimal digits after those read so far.
abbrev pub value_from : ℕ → List ℕ → ℕ
value_from acc [] = acc
value_from acc (c ∷ cs) = value_from (acc * 10 + (c - b'0')) cs

-- A number without its exponent: the sign and the digits around the point.
pub record Mantissa : Type 0 where
  pub negative : Bool
  pub whole : List ℕ
  pub fraction : List ℕ

-- `str::split_once` at the first code point that passes a test.
unfoldable pub split_once : (ℕ → Bool) → List ℕ → Option (List ℕ × List ℕ)
split_once p [] = none
split_once p (c ∷ cs) = elim (p c) [
  | true ↦ some ([], cs)
  | false ↦ elim (split_once p cs) [ none ↦ none | some found ↦ some (c ∷ found.0, found.1) ]
]

-- `starts_with('-')` and `strip_prefix(['-', '+'])`
abbrev pub sign_of : List ℕ → Bool
sign_of [] = false
sign_of (c ∷ cs) = c == b'-'

abbrev pub unsigned_of : List ℕ → List ℕ
unsigned_of [] = []
unsigned_of (c ∷ cs) = if c == b'-' || c == b'+' then cs else c ∷ cs

abbrev pub is_empty : List ℕ → Bool
is_empty [] = true
is_empty (c ∷ cs) = false

-- `i32::from_str`
abbrev pub in_i32 : ℤ → Bool
in_i32 (pos n) = ltb n (2 ^ 31)
in_i32 (negsuc n) = ltb n (2 ^ 31)

unfoldable pub parse_i32 : List ℕ → Result DecimalError ℤ
parse_i32 text =
    let digits = unsigned_of text in
    let value = signed (sign_of text) (value_from 0 digits) in
    fail_if (is_empty digits || not (all is_ascii_digit digits) || not (in_i32 value))
      DecimalError.inexact
    >> ok value

-- `unsigned.split_once('.').unwrap_or((unsigned, ""))`, and whether there is a point.
abbrev pub parts : List ℕ → Option (List ℕ × List ℕ) → Bool × List ℕ × List ℕ
parts unsigned none = (false, unsigned, [])
parts unsigned (some (whole, fraction)) = (true, whole, fraction)

unfoldable pub mantissa_of : Bool → Bool × List ℕ × List ℕ → Result DecimalError Mantissa
mantissa_of negative (point, whole, fraction) =
    fail_if
      (is_empty whole
        || (point && is_empty fraction)
        || not (all is_ascii_digit whole)
        || not (all is_ascii_digit fraction))
      DecimalError.inexact
    >> ok (record { negative = negative; whole = whole; fraction = fraction })

abbrev pub is_point : ℕ → Bool
is_point c = c == b'.'

unfoldable pub parse_mantissa : List ℕ → Result DecimalError Mantissa
unfolding split_once mantissa_of
parse_mantissa text =
    mantissa_of (sign_of text) (parts (unsigned_of text) (split_once is_point (unsigned_of text)))

-- `while scale < 0`, with the times that are left.
unfoldable pub raised : ℕ → ℤ → Result DecimalError ℤ
raised zero c = ok c
raised (suc k) c =
    let next = signed (is_negative c) (abs_ℤ c * 10) in
    fail_if (not (in_i128 next)) DecimalError.inexact >> raised k next

-- A scale that is not negative, with the coefficient raised if it was.
unfoldable pub scaled : ℤ → ℤ → Result DecimalError (ℤ × ℕ)
unfolding raised
scaled c (pos s) = ok (c, s)
scaled c (negsuc k) = raised (suc k) c >>= λ raised. ok (raised, 0)

-- What fits the record and is canonical.
unfoldable pub fitted : Decimal → Result DecimalError Decimal
unfolding is_canonical
fitted d =
    fail_if (not (in_i64 d.coefficient) || not (ltb d.scale 256) || not (is_canonical d))
      DecimalError.inexact
    >> ok d

-- The decimal of a sign, a magnitude and a scale, where so many digits follow the point.
unfoldable pub decimal_from : Bool → ℕ → ℕ → ℤ → Result DecimalError Decimal
unfolding scaled normalized fitted
decimal_from negative magnitude places scale =
    fail_if (not (ltb magnitude (2 ^ 127))) DecimalError.inexact
    >> (fail_if (not (ltb places (2 ^ 31)) || not (in_i32 scale)) DecimalError.inexact
        >> (fail_if (ltb_ℤ scale (negsuc 37)) DecimalError.inexact
            >> (scaled (signed negative magnitude) scale >>= λ (c, s).
                fitted (normalized (record { coefficient = c; scale = s })))))

-- The decimal of a mantissa and an exponent.
unfoldable pub decimal_of : Mantissa → ℤ → Result DecimalError Decimal
unfolding decimal_from
decimal_of m exponent =
    decimal_from m.negative (value_from 0 (m.whole ++ m.fraction)) (length m.fraction)
      (pos (length m.fraction) -ℤ exponent)

-- The mantissa and the exponent of a text.
abbrev pub exponent_of : List ℕ → Option (List ℕ × List ℕ) → Result DecimalError (List ℕ × ℤ)
exponent_of text none = ok (text, pos 0)
exponent_of text (some (mantissa, exponent)) = parse_i32 exponent >>= λ e. ok (mantissa, e)

abbrev pub is_exponent : ℕ → Bool
is_exponent c = c == b'e' || c == b'E'

-- `Decimal::parse`
unfoldable pub parse : List ℕ → Result DecimalError Decimal
unfolding split_once parse_i32 parse_mantissa decimal_of
parse text = exponent_of text (split_once is_exponent text) >>= λ (mantissa, exponent).
    parse_mantissa mantissa >>= λ m. decimal_of m exponent
