-- ===== src/Tests/Decimal.antt =====
-- Decimals parsed and printed.
use strategy_core.Common.{ℕ, ◌≡◌, refl, List, ok, err}
use strategy_core.Common.Int.{ℤ, pos, negsuc, ◌-ℤ◌}
use strategy_core.Wire.Text.{codes}
use strategy_core.Decimal.{
  Decimal, Mantissa, inexact, is_canonical, parse, parse_mantissa, exponent_of, split_once,
  is_exponent,
}
use strategy_core.Decimal.Print.{display}
use strategy_core.Decimal.Exact.{IsExact, parse-IsExact}
use strategy_core.Decimal.RoundTrip.{parse-display}

abbrev five : Decimal
five = record { coefficient = negsuc 124; scale = 5 }

parsed :
    (parse (codes "-1.250e-3") ≡ ok five)
    × (parse (codes "80.0") ≡ ok (record { coefficient = pos 80; scale = 0 }))
    × (parse (codes "1e2") ≡ ok (record { coefficient = pos 100; scale = 0 }))
    × (parse (codes "-0") ≡ ok (record { coefficient = pos 0; scale = 0 }))
unfolding parse ◌-ℤ◌
parsed = (refl, refl, refl, refl)

refused :
    (parse (codes "1.") ≡ err inexact)
    × (parse (codes ".5") ≡ err inexact)
    × (parse (codes "1e400") ≡ err inexact)
    × (parse (codes "99999999999999999999") ≡ err inexact)
    × (parse (codes "1.2.3") ≡ err inexact)
unfolding parse ◌-ℤ◌
refused = (refl, refl, refl, refl, refl)

shown : display five ≡ codes "-0.00125"
unfolding display
shown = refl

parse-IsExact_example :
    (m : Mantissa) × (exponent : ℤ) × (digits : List ℕ) × (exponent_of
        (codes "-1.250e-3")
        (split_once is_exponent (codes "-1.250e-3"))
      ≡ ok (digits, exponent))
    × (parse_mantissa digits ≡ ok m)
    × IsExact m exponent five
unfolding parse ◌-ℤ◌
parse-IsExact_example = parse-IsExact (codes "-1.250e-3") five refl

parse-display_example : parse (display five) ≡ ok five
unfolding is_canonical
parse-display_example = parse-display five refl refl
