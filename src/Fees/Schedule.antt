-- ===== src/Fees/Schedule.antt =====
-- The fee schedule: errors, fee types, base rates and a Market's terms
-- (native/strategy_core_kernel/src/fees.rs), and the quantity that it reads
-- (`ContractQuantity` in native/strategy_core_kernel/src/actions.rs).
use strategy_core.Common.{
  ℕ, String, Option, none, some, Result, ok, err, ◌>>=◌, ok_or, str_eq, if◌then◌else◌, and_then,
}
use strategy_core.Common.Int.{ℤ, pos, negsuc}

pub data OrderAction : Type 0 where
  buy sell : OrderAction

-- An exact quantity in hundredths of a contract, an `i64`.
pub record ContractQuantity : Type 0 where
  pub hundredths : ℤ

pub data FeeError : Type 0 where
  unknown_fee_type invalid_decimal invalid_input : String → FeeError

abbrev pub FeeResult : Type 0 → Type 0
FeeResult A = Result FeeError A

pub data LiquidityRole : Type 0 where
  maker taker : LiquidityRole

pub data FeeType : Type 0 where
  quadratic quadratic_with_maker_fees flat : FeeType

-- `FeeType::from_str`
unfoldable pub parse_fee_type : String → FeeResult FeeType
parse_fee_type value =
    if str_eq value "quadratic"
    then ok FeeType.quadratic
    else if str_eq value "quadratic_with_maker_fees"
    then ok FeeType.quadratic_with_maker_fees
    else if str_eq value "flat"
    then ok FeeType.flat
    else err (FeeError.unknown_fee_type value)

abbrev pub base_rate_millionths : FeeType → LiquidityRole → ℕ
base_rate_millionths FeeType.quadratic LiquidityRole.maker = 0
base_rate_millionths FeeType.flat LiquidityRole.maker = 0
base_rate_millionths FeeType.quadratic LiquidityRole.taker = 70000
base_rate_millionths FeeType.quadratic_with_maker_fees LiquidityRole.taker = 70000
base_rate_millionths FeeType.quadratic_with_maker_fees LiquidityRole.maker = 17500
base_rate_millionths FeeType.flat LiquidityRole.taker = 35000

pub record FeeTerms : Type 0 where
  pub fee_type : FeeType
  pub multiplier_millionths : ℕ

-- `u64::try_from` of an `i64`
abbrev pub try_unsigned : ℤ → Option ℕ
try_unsigned (pos n) = some n
try_unsigned (negsuc n) = none

-- `FeeTerms::from_market`
unfoldable pub from_market : String → Option ℤ → FeeResult FeeTerms
unfolding parse_fee_type
from_market fee_type multiplier = parse_fee_type fee_type >>= λ fee_type'.
    ok_or (and_then multiplier try_unsigned)
      (FeeError.invalid_input "fee multiplier is absent or negative")
    >>= λ multiplier'. ok (record { fee_type = fee_type'; multiplier_millionths = multiplier' })

unfoldable pub quantity_hundredths : ContractQuantity → FeeResult ℕ
quantity_hundredths quantity =
    ok_or (try_unsigned quantity.hundredths) (FeeError.invalid_input "quantity is negative")
