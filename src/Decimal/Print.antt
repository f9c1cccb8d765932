-- ===== src/Decimal/Print.antt =====
-- The printer of a decimal (`Display` in native/strategy_core_kernel/src/decimal.rs), with the decimal
-- text of a number that `to_string` gives.
use strategy_core.Common.{
  ℕ, zero, suc, ◌+◌, ◌-◌, ◌/◌, ◌%◌, Bool, true, false, List, [], ◌∷◌, ◌++◌, length, take, drop, ltb,
  if◌then◌else◌,
}
use strategy_core.Decimal.{Decimal, abs_ℤ, is_negative}

-- The digits of a number; the fuel exceeds the number.
unfoldable pub digits_of : ℕ → ℕ → List ℕ
digits_of zero n = []
digits_of (suc fuel) n =
    let rest = digits_of fuel (n / 10) in
    if ltb n 10 then (b'0' + n) ∷ [] else rest ++ (b'0' + n % 10) ∷ []

-- `unsigned.to_string()`
unfoldable pub to_text : ℕ → List ℕ
unfolding digits_of
to_text n = digits_of (suc n) n

-- `{:0>width$}`
unfoldable pub zeros : ℕ → List ℕ
zeros zero = []
zeros (suc n) = b'0' ∷ zeros n

unfoldable pub padded : ℕ → List ℕ → List ℕ
unfolding zeros
padded width digits = zeros (width - length digits) ++ digits

-- The digits before and after the point.
unfoldable pub whole_of : ℕ → List ℕ → List ℕ
whole_of scale digits =
    if ltb scale (length digits) then take (length digits - scale) digits else b'0' ∷ []

unfoldable pub fraction_of : ℕ → List ℕ → List ℕ
unfolding padded
fraction_of scale digits =
    if ltb scale (length digits) then drop (length digits - scale) digits else padded scale digits

abbrev pub sign_text : Bool → List ℕ
sign_text true = b'-' ∷ []
sign_text false = []

abbrev pub body_of : ℕ → List ℕ → List ℕ
body_of zero digits = digits
body_of (suc s) digits = whole_of (suc s) digits ++ b'.' ∷ fraction_of (suc s) digits

-- `Display::fmt`
unfoldable pub display : Decimal → List ℕ
unfolding to_text whole_of fraction_of
display d = sign_text (is_negative d.coefficient) ++ body_of d.scale (to_text (abs_ℤ d.coefficient))
