-- ===== src/Updates/Records.antt =====
-- The records of kernel_v6/updates.rs: the status a Strategy sees of an order, and the update
-- records made from a runner entry and an order.
use strategy_core.Common.{
  ℕ, ◌+◌, ◌-◌, String, Bool, true, false, Option, none, some, List, ◌&&◌, is_some, is_some_and,
  map_or, or_else, and_then, ltb, str_eq, if◌then◌else◌,
}
use mathlib.Core.Option
use strategy_core.Wire.Orders.{
  BrokerOrderV6, BrokerOrderStatusV6, BrokerCommandKindV6, OrderUpdateStatusV6, RunnerEntryV6,
  OrderUpdateRecordV6,
}

abbrev pub provider_rejected_code : String
provider_rejected_code = "provider_rejected"

abbrev pub provider_rejected_reason : String
provider_rejected_reason = "the provider rejected the order"

-- Something the comparison did that the result reports as a diagnostic.
pub record Note : Type 0 where
  pub code : String
  pub command_id : String
  pub lost_hundredths : ℕ

-- `Note::new`
abbrev pub note : String → String → Note
note code id = record { code = code; command_id = id; lost_hundredths = 0 }

-- How the kernel failed on one order update.
pub data Failure : Type 0 where
  counted deferred rolled_back held : Failure

-- One runner entry's comparison.
pub record Step : Type 0 where
  pub previous : Option RunnerEntryV6
  pub next : Option RunnerEntryV6
  pub update : Option OrderUpdateRecordV6

-- The comparison's outcome, before the updates are delivered.
pub record Derived : Type 0 where
  pub steps : List Step
  pub newest_view_revision : ℕ
  pub notes : List Note

-- `Step::deferred`
abbrev pub is_deferred : Step → Bool
is_deferred s = is_some s.update && is_some_and s.previous (λ entry. ltb 0 entry.delivery_deferrals)

-- `Step::deferrals`
abbrev pub deferrals : Step → ℕ
deferrals s = map_or s.previous 0 (λ entry. entry.delivery_deferrals)

-- `Step::deferral`
abbrev pub deferral : Step → ℕ
deferral s = map_or s.previous 1 (λ entry. entry.delivery_deferrals + 1)

-- `Step::attempt`
abbrev pub attempt : Step → ℕ
attempt s = map_or s.previous 1 (λ entry. entry.delivery_failures + 1)

unfoldable pub rejection_reason : BrokerOrderV6 → String
rejection_reason order = elim order.rejection_reason [
  | none ↦ provider_rejected_reason
  | some reason ↦ if str_eq reason "" then provider_rejected_reason else reason
]

-- A cancellation request or a recovery hold: the last status, or partially filled.
abbrev held_status : BrokerOrderV6 → Option OrderUpdateStatusV6 → OrderUpdateStatusV6
held_status order last =
    if ltb 0 order.filled_quantity_hundredths
    then OrderUpdateStatusV6.partially_filled
    else map_or last OrderUpdateStatusV6.accepted (λ s. s)

status_seen : BrokerOrderStatusV6 → BrokerOrderV6 → Option OrderUpdateStatusV6 → OrderUpdateStatusV6
status_seen BrokerOrderStatusV6.durably_accepted order last = OrderUpdateStatusV6.accepted
status_seen BrokerOrderStatusV6.dispatched order last = OrderUpdateStatusV6.accepted
status_seen BrokerOrderStatusV6.resting order last = OrderUpdateStatusV6.resting
status_seen BrokerOrderStatusV6.partially_filled order last = OrderUpdateStatusV6.partially_filled
status_seen BrokerOrderStatusV6.filled order last = OrderUpdateStatusV6.filled
status_seen BrokerOrderStatusV6.cancelled order last = OrderUpdateStatusV6.cancelled
status_seen BrokerOrderStatusV6.expired order last = OrderUpdateStatusV6.expired
status_seen BrokerOrderStatusV6.rejected order last =
    OrderUpdateStatusV6.refused provider_rejected_code (rejection_reason order)
status_seen BrokerOrderStatusV6.cancellation_requested order last = held_status order last
status_seen BrokerOrderStatusV6.recovery_required order last = held_status order last

-- The status a Strategy sees for an order, after the last one that it saw.
unfoldable pub seen_status : BrokerOrderV6 → Option OrderUpdateStatusV6 → OrderUpdateStatusV6
unfolding status_seen
seen_status order last = status_seen order.status order last

unfoldable pub order_record :
    RunnerEntryV6 → BrokerOrderV6 → OrderUpdateStatusV6 → Bool → OrderUpdateRecordV6
order_record entry order status is_final = record {
  command_id = entry.command_id;
  kind = entry.kind;
  client_order_id = entry.client_order_id;
  order_id = some order.order_id;
  market_id = entry.market_id;
  action = entry.action;
  side = entry.side;
  status = status;
  requested_quantity_hundredths = order.quantity_hundredths;
  filled_quantity_hundredths = order.filled_quantity_hundredths;
  remaining_quantity_hundredths = order.remaining_quantity_hundredths;
  newly_filled_quantity_hundredths =
      order.filled_quantity_hundredths - entry.filled_quantity_hundredths;
  average_fill_price_micros = order.average_fill_price_micros;
  fees_micros = order.fees_micros;
  is_final = is_final;
  vanished = false;
}

unfoldable pub command_record :
    RunnerEntryV6 → OrderUpdateStatusV6 → Option BrokerOrderV6 → Bool → OrderUpdateRecordV6
command_record entry status target vanished = record {
  command_id = entry.command_id;
  kind = entry.kind;
  client_order_id = entry.client_order_id;
  order_id = or_else (Option.map (λ order. order.order_id) target) entry.order_id;
  market_id = entry.market_id;
  action = entry.action;
  side = entry.side;
  status = status;
  requested_quantity_hundredths =
      map_or target entry.requested_quantity_hundredths (λ order. order.quantity_hundredths);
  filled_quantity_hundredths =
      map_or target entry.filled_quantity_hundredths (λ order. order.filled_quantity_hundredths);
  remaining_quantity_hundredths = map_or target 0 (λ order. order.remaining_quantity_hundredths);
  newly_filled_quantity_hundredths = 0;
  average_fill_price_micros = and_then target (λ order. order.average_fill_price_micros);
  fees_micros = map_or target 0 (λ order. order.fees_micros);
  is_final = true;
  vanished = vanished;
}

unfoldable pub adopted : BrokerOrderV6 → ℕ → RunnerEntryV6
unfolding seen_status
adopted order revision = record {
  command_id = order.command_id;
  kind = BrokerCommandKindV6.place_order;
  client_order_id = some order.provider_client_id;
  order_id = some order.order_id;
  market_id = some order.market_id;
  action = some order.action;
  side = some order.side;
  requested_quantity_hundredths = order.quantity_hundredths;
  last_status = some (seen_status order none);
  filled_quantity_hundredths = order.filled_quantity_hundredths;
  order_revision = order.revision;
  issued_broker_revision = revision;
  vanished = false;
  vanished_revision = 0;
  absent_views = 0;
  delivery_failures = 0;
  delivery_deferrals = 0;
}
