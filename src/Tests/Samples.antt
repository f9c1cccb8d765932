-- ===== src/Tests/Samples.antt =====
-- Sample orders, entries and views of native/strategy_core_v3/src/decision_v6.rs.
use strategy_core.Common.{ℕ, true, false, none, some, List, [], ◌∷◌}
use strategy_core.Common.Int.{pos}
use strategy_core.Wire.Orders.{
  BrokerOrderV6, BrokerOrderStatusV6, BrokerCommandKindV6, OrderActionV6, OrderTypeV6,
  ContractSideV6, CommandReceiptV6, CommandOutcomeV6, RunnerEntryV6, RunnerSectionV6,
}
use strategy_core.Wire.Orders.{TimePolicyV6, BrokerDetailV6}
use strategy_core.Wire.Commands.{PlaceOrderV6}
use strategy_core.Updates.Records.{Step}
use strategy_core.Updates.Compare.{View}
use strategy_core.Updates.Derive.{step_of}

-- A limit buy of one contract at 40 cents, with a fill.
abbrev pub order_at : ℕ → ℕ → BrokerOrderV6
order_at filled remaining = record {
  command_id = "p1";
  intent_id = "i1";
  order_id = "o1";
  provider_order_id = none;
  provider_client_id = "c1";
  market_id = "m1";
  action = OrderActionV6.buy;
  side = ContractSideV6.yes_side;
  order_type = OrderTypeV6.limit;
  quantity_hundredths = 100;
  filled_quantity_hundredths = filled;
  remaining_quantity_hundredths = remaining;
  limit_price_micros = some 400000;
  average_fill_price_micros = none;
  reserved_principal_micros = 160000;
  reserved_fee_micros = 0;
  fees_micros = 0;
  rejection_reason = none;
  created_at_unix_ms = some (pos 1);
  updated_at_unix_ms = none;
  signal_type = none;
  signal_metadata = none;
  status = BrokerOrderStatusV6.partially_filled;
  revision = 7;
}

abbrev pub order_60 : BrokerOrderV6
order_60 = order_at 60 40

-- The place that the order is of, and a cancel of it.
abbrev pub place_entry : RunnerEntryV6
place_entry = record {
  command_id = "p1";
  kind = BrokerCommandKindV6.place_order;
  client_order_id = some "c1";
  order_id = none;
  market_id = some "m1";
  action = some OrderActionV6.buy;
  side = some ContractSideV6.yes_side;
  requested_quantity_hundredths = 100;
  last_status = none;
  filled_quantity_hundredths = 0;
  order_revision = 0;
  issued_broker_revision = 5;
  vanished = false;
  vanished_revision = 0;
  absent_views = 0;
  delivery_failures = 0;
  delivery_deferrals = 0;
}

abbrev pub cancel_entry : RunnerEntryV6
cancel_entry = record place_entry { command_id = "x1"; kind = BrokerCommandKindV6.cancel_order }

abbrev pub view_at : ℕ → List BrokerOrderV6 → List CommandReceiptV6 → View
view_at revision orders receipts = record {
  revision = revision;
  complete = true;
  orders = orders;
  receipts = receipts;
}

abbrev pub refusal : CommandReceiptV6
refusal = record {
  command_id = "x1";
  kind = BrokerCommandKindV6.cancel_order;
  outcome = CommandOutcomeV6.refused "too_late" "the order is being filled";
}

abbrev pub view_60 : View
view_60 = view_at 8 (order_60 ∷ []) []

-- The order is shown, and the cancel refused.
abbrev pub view_refused : View
view_refused = view_at 8 (order_60 ∷ []) (refusal ∷ [])

abbrev pub section_of : List RunnerEntryV6 → RunnerSectionV6
section_of entries = record { seeded = true; newest_view_revision = 7; entries = entries }

abbrev pub two_steps : List Step
two_steps = step_of view_refused cancel_entry ∷ step_of view_refused place_entry ∷ []

abbrev pub limit_buy : PlaceOrderV6
limit_buy = record {
  command_id = "p1";
  market_id = "m1";
  action = OrderActionV6.buy;
  side = ContractSideV6.yes_side;
  order_type = OrderTypeV6.limit;
  quantity_hundredths = 100;
  limit_price_micros = some 400000;
  market_price_cap_micros = none;
  time_policy = TimePolicyV6.good_till_canceled;
  post_only = true;
  expires_after_ms = none;
  reduce_only = false;
  provider_client_id = "c1";
  signal_type = none;
  signal_metadata = none;
  metadata = [];
}

abbrev pub one_order : BrokerDetailV6
one_order = record {
  revision = 8;
  reserved_cash_micros = 160000;
  positions = [];
  orders = order_60 ∷ [];
}
