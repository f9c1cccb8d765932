-- ===== src/Wire/Broker.antt =====
-- The validator of a Broker order (`validate_broker_order_v6` in
-- native/strategy_core_v3/src/decision_v6.rs). Sums and products of 64-bit amounts are exact: the
-- source adds with `checked_add` and multiplies in 128 bits.
use Prim.Native.String
use strategy_core.Common.{
  ℕ, ◌+◌, ◌*◌, ◌/◌, ◌%◌, ◌^◌, Bool, true, false, not, ◌&&◌, ◌||◌, String, Option, none, some, List,
  any, leb, ltb, ◌==◌, str_eq, is_some, is_none, is_some_and, is_none_or, if◌then◌else◌, ok, err,
}
use strategy_core.Wire.Bounds.{
  max_price_micros, max_short_text_bytes, max_command_metadata_bytes, max_reason_bytes, i64_max,
}
use strategy_core.Wire.Orders.{
  BrokerOrderV6, BrokerOrderStatusV6, OrderActionV6, OrderTypeV6, is_terminal,
}
use strategy_core.Wire.Text.{
  invalid_contract, Checked, valid_identifier, valid_optional_identifier, valid_optional_text,
}

abbrev pub maximum_quantity_value : ℕ → ℕ
maximum_quantity_value quantity = quantity * max_price_micros / 100

abbrev pub exact_quantity_value : ℕ → ℕ → Option ℕ
exact_quantity_value quantity price =
    let product = quantity * price in if product % 100 == 0 then some (product / 100) else none

abbrev pub is_sell : OrderActionV6 → Bool
is_sell OrderActionV6.sell = true
is_sell _ = false

abbrev pub is_limit : OrderTypeV6 → Bool
is_limit OrderTypeV6.limit = true
is_limit _ = false

unfoldable pub valid_order_reservation : BrokerOrderV6 → Bool
valid_order_reservation order =
    let remaining = order.remaining_quantity_hundredths in
    let principal : Bool = elim order.limit_price_micros [
      | some price ↦
          is_some_and (exact_quantity_value remaining price)
            (λ principal. principal == order.reserved_principal_micros)
      | none ↦ leb order.reserved_principal_micros (maximum_quantity_value remaining)
    ] in
    if is_sell order.action || is_terminal order.status
    then (order.reserved_principal_micros == 0) && (order.reserved_fee_micros == 0)
    else principal && (not (remaining == 0) || (order.reserved_fee_micros == 0))

-- `stopped_early`
abbrev pub stopped_early : BrokerOrderStatusV6 → Bool
stopped_early BrokerOrderStatusV6.cancelled = true
stopped_early BrokerOrderStatusV6.expired = true
stopped_early BrokerOrderStatusV6.rejected = true
stopped_early _ = false

-- `u64::checked_add`
abbrev pub checked_add_u64 : ℕ → ℕ → Option ℕ
checked_add_u64 a b = if ltb (a + b) (2 ^ 64) then some (a + b) else none

unfoldable pub quantities_valid : BrokerOrderV6 → Bool
quantities_valid order =
    let accounted =
      checked_add_u64 order.filled_quantity_hundredths order.remaining_quantity_hundredths in
    is_some_and accounted (λ q. q == order.quantity_hundredths)
    || (stopped_early order.status
        && (order.remaining_quantity_hundredths == 0)
        && is_some_and accounted (λ q. leb q order.quantity_hundredths))

-- The order's identifiers and its Market.
unfoldable pub order_names_valid : BrokerOrderV6 → List String → Bool
order_names_valid order market_ids =
    valid_identifier order.command_id
    && valid_identifier order.intent_id
    && valid_identifier order.order_id
    && valid_optional_identifier order.provider_order_id
    && valid_identifier order.provider_client_id
    && any (λ market. str_eq market order.market_id) market_ids

-- The order's prices.
unfoldable pub order_prices_valid : BrokerOrderV6 → Bool
order_prices_valid order =
    is_none_or order.limit_price_micros (λ price. leb price max_price_micros)
    && is_none_or order.average_fill_price_micros (λ price. leb price max_price_micros)
    && not (is_limit order.order_type && is_none order.limit_price_micros)
    && not (not (is_limit order.order_type) && is_some order.limit_price_micros)

-- The order's texts.
unfoldable pub order_texts_valid : BrokerOrderV6 → Bool
order_texts_valid order =
    valid_optional_text order.signal_type max_short_text_bytes
    && valid_optional_text order.signal_metadata max_command_metadata_bytes
    && is_none_or order.rejection_reason (λ reason. leb (String.len reason) max_reason_bytes)

unfoldable pub validate_broker_order_v6 : BrokerOrderV6 → List String → Checked
validate_broker_order_v6 order market_ids =
    if order_names_valid order market_ids
      && ltb 0 order.quantity_hundredths
      && leb order.quantity_hundredths i64_max
      && quantities_valid order
      && order_prices_valid order
      && valid_order_reservation order
      && order_texts_valid order
    then ok tt
    else err invalid_contract
