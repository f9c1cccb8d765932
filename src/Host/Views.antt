-- ===== src/Host/Views.antt =====
-- What the host shows a kernel of its positions and orders: `position_quantity`, `pending_orders`
-- and `order_status` (native/strategy_core_v3/src/kernel_v6.rs). The binary price of a limit in
-- microdollars and the instant of a time in milliseconds are parameters.
use strategy_core.Common.{
  ℕ, ◌+◌, ◌-◌, ◌^◌, Bool, true, false, not, ◌&&◌, ◌||◌, String, Option, none, some, List, ◌++◌, map,
  filter, find, contains, and_then, str_eq, ltb, if◌then◌else◌,
}
use strategy_core.Common.Int.{ℤ, pos}
use strategy_core.Wire.Orders.{
  OrderActionV6, ContractSideV6, BrokerOrderStatusV6, BrokerOrderV6, is_terminal,
}
use strategy_core.Fees.Schedule.{ContractQuantity}
use strategy_core.Actions.{ContractSide}
use strategy_core.Actions.Views.{
  BrokerOrderStatus, as_str, is_terminal_status, OrderStatusView, PendingOrderView,
}
use strategy_core.Host.State.{KernelHost, ProvisionalOrder}
use strategy_core.Host.Orders.{order_action_v6, contract_side_v6}

unfoldable pub broker_order_status : BrokerOrderStatusV6 → BrokerOrderStatus
broker_order_status BrokerOrderStatusV6.durably_accepted = BrokerOrderStatus.accepted
broker_order_status BrokerOrderStatusV6.dispatched = BrokerOrderStatus.dispatched
broker_order_status BrokerOrderStatusV6.resting = BrokerOrderStatus.resting
broker_order_status BrokerOrderStatusV6.partially_filled = BrokerOrderStatus.partially_filled
broker_order_status BrokerOrderStatusV6.filled = BrokerOrderStatus.filled
broker_order_status BrokerOrderStatusV6.cancellation_requested =
    BrokerOrderStatus.cancellation_requested
broker_order_status BrokerOrderStatusV6.cancelled = BrokerOrderStatus.cancelled
broker_order_status BrokerOrderStatusV6.expired = BrokerOrderStatus.expired
broker_order_status BrokerOrderStatusV6.rejected = BrokerOrderStatus.rejected
broker_order_status BrokerOrderStatusV6.recovery_required = BrokerOrderStatus.recovery_required

abbrev pub provisional_status : ProvisionalOrder → BrokerOrderStatus
provisional_status order =
    if order.cancellation_requested
    then BrokerOrderStatus.cancellation_requested
    else BrokerOrderStatus.submitted

-- `KernelHost::view_status`
unfoldable pub view_status : KernelHost → BrokerOrderV6 → BrokerOrderStatus
unfolding broker_order_status
view_status h order =
    let status = broker_order_status order.status in
    if not (is_terminal_status status) && contains order.order_id h.cancellation_requested
    then BrokerOrderStatus.cancellation_requested
    else status

abbrev side_eq : ContractSideV6 → ContractSideV6 → Bool
side_eq ContractSideV6.yes_side ContractSideV6.yes_side = true
side_eq ContractSideV6.no_side ContractSideV6.no_side = true
side_eq _ _ = false

-- `ContractQuantity::from_hundredths(i64::try_from(hundredths))`, zero out of range
abbrev quantity_or_zero : Option ℕ → ContractQuantity
quantity_or_zero none = record { hundredths = pos 0 }
quantity_or_zero (some n) = record { hundredths = pos (if ltb n (2 ^ 63) then n else 0) }

unfoldable pub position_quantity : KernelHost → String → ContractSide → ContractQuantity
position_quantity h ticker side = quantity_or_zero (
    and_then
      (find (λ p. str_eq p.market_id ticker && side_eq p.side (contract_side_v6 side))
        h.broker.positions)
      (λ p. some p.quantity_hundredths))

-- `hundredths_quantity`: out of range, the largest quantity
abbrev pub quantity_of : ℕ → ContractQuantity
quantity_of n = record { hundredths = pos (if ltb n (2 ^ 63) then n else 2 ^ 63 - 1) }

-- What the views take of floating point and of the calendar: the bits of `micros / 1_000_000`, and
-- whether an instant in milliseconds is one.
pub record Clock : Type 0 where
  pub price : ℕ → ℕ
  pub millis : ℤ → Option ℤ

abbrev pub action_text : OrderActionV6 → String
action_text OrderActionV6.buy = "buy"
action_text OrderActionV6.sell = "sell"

abbrev pub side_text : ContractSideV6 → String
side_text ContractSideV6.yes_side = "yes"
side_text ContractSideV6.no_side = "no"

abbrev pub reported_view : Clock → KernelHost → BrokerOrderV6 → PendingOrderView
reported_view clock h order = record {
  order_id = order.order_id;
  ticker = order.market_id;
  status = as_str (view_status h order);
  action = action_text order.action;
  contract_side = side_text order.side;
  limit_price = and_then order.limit_price_micros (λ micros. some (clock.price micros));
  requested_quantity = quantity_of order.quantity_hundredths;
  filled_quantity = quantity_of order.filled_quantity_hundredths;
  remaining_quantity = quantity_of order.remaining_quantity_hundredths;
  reserved_cost = order.reserved_principal_micros + order.reserved_fee_micros;
  client_order_id = some order.provider_client_id;
  created_at = and_then order.created_at_unix_ms clock.millis;
  updated_at = and_then order.updated_at_unix_ms clock.millis;
}

abbrev pub provisional_view : ProvisionalOrder → PendingOrderView
provisional_view order = record {
  order_id = "";
  ticker = order.ticker;
  status = as_str (provisional_status order);
  action = action_text (order_action_v6 order.action);
  contract_side = side_text (contract_side_v6 order.side);
  limit_price = order.limit_price;
  requested_quantity = order.quantity;
  filled_quantity = record { hundredths = pos 0 };
  remaining_quantity = order.quantity;
  reserved_cost = order.commitment_micros;
  client_order_id = some order.client_order_id;
  created_at = none;
  updated_at = none;
}

-- `KernelHost::pending_orders`
unfoldable pub pending_orders : Clock → KernelHost → List PendingOrderView
unfolding view_status
pending_orders clock h =
    map (reported_view clock h) (filter (λ order. not (is_terminal order.status)) h.broker.orders)
    ++ map provisional_view h.provisional

-- The status view of an order placed in the decision.
abbrev pub placed_view : ProvisionalOrder → OrderStatusView
placed_view order = record {
  order_id = "";
  client_order_id = order.client_order_id;
  status = provisional_status order;
  requested_quantity = order.quantity;
  filled_quantity = record { hundredths = pos 0 };
  remaining_quantity = order.quantity;
  reason = as_str (provisional_status order);
  updated_at = none;
}

abbrev status_view : Clock → KernelHost → BrokerOrderV6 → OrderStatusView
status_view clock h order = record {
  order_id = order.order_id;
  client_order_id = order.provider_client_id;
  status = view_status h order;
  requested_quantity = quantity_of order.quantity_hundredths;
  filled_quantity = quantity_of order.filled_quantity_hundredths;
  remaining_quantity = quantity_of order.remaining_quantity_hundredths;
  reason = as_str (view_status h order);
  updated_at = and_then order.updated_at_unix_ms clock.millis;
}

abbrev pub status_of :
    Clock → KernelHost → String → Option ProvisionalOrder → Option OrderStatusView
status_of clock h client (some order) = some (placed_view order)
status_of clock h client none =
    and_then
      (find (λ o. str_eq o.provider_client_id client || str_eq o.order_id client) h.broker.orders)
      (λ order. some (status_view clock h order))

-- `KernelHost::order_status`
unfoldable pub order_status : Clock → KernelHost → String → Option OrderStatusView
unfolding view_status
order_status clock h client =
    status_of clock h client (find (λ o. str_eq o.client_order_id client) h.provisional)
