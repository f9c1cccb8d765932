-- ===== src/Wire/Orders.antt =====
-- What a Strategy's decision sees of its orders and commands, and what the runner records of them
-- (native/strategy_core_v3/src/decision_v6.rs). Unsigned integers are natural numbers, whose width
-- the validators bound; times are signed.
use strategy_core.Common.{
  ℕ, String, Bool, true, false, not, ◌&&◌, List, Option, ◌≡◌, refl, arith, str_eq, eq_iff,
}
use strategy_core.Common.Int.{ℤ}

pub data ContractSideV6 : Type 0 where
  yes_side no_side : ContractSideV6

pub data OrderActionV6 : Type 0 where
  buy sell : OrderActionV6

pub data OrderTypeV6 : Type 0 where
  market limit : OrderTypeV6

pub data TimePolicyV6 : Type 0 where
  good_till_canceled immediate_or_cancel fill_or_kill : TimePolicyV6

pub data BrokerOrderStatusV6 : Type 0 where
  durably_accepted dispatched resting partially_filled filled : BrokerOrderStatusV6
  cancellation_requested cancelled expired rejected recovery_required : BrokerOrderStatusV6

-- `BrokerOrderStatusV6::is_terminal`
abbrev pub is_terminal : BrokerOrderStatusV6 → Bool
is_terminal BrokerOrderStatusV6.filled = true
is_terminal BrokerOrderStatusV6.cancelled = true
is_terminal BrokerOrderStatusV6.expired = true
is_terminal BrokerOrderStatusV6.rejected = true
is_terminal _ = false

pub data BrokerCommandKindV6 : Type 0 where
  place_order cancel_order cancel_all_orders : BrokerCommandKindV6

-- `kind == BrokerCommandKindV6::PlaceOrder`
abbrev pub is_place : BrokerCommandKindV6 → Bool
is_place BrokerCommandKindV6.place_order = true
is_place _ = false

pub record BrokerOrderV6 : Type 0 where
  pub command_id : String
  pub intent_id : String
  pub order_id : String
  pub provider_order_id : Option String
  pub provider_client_id : String
  pub market_id : String
  pub action : OrderActionV6
  pub side : ContractSideV6
  pub order_type : OrderTypeV6
  pub quantity_hundredths : ℕ
  pub filled_quantity_hundredths : ℕ
  pub remaining_quantity_hundredths : ℕ
  pub limit_price_micros : Option ℕ
  pub average_fill_price_micros : Option ℕ
  pub reserved_principal_micros : ℕ
  pub reserved_fee_micros : ℕ
  pub fees_micros : ℕ
  pub rejection_reason : Option String
  pub created_at_unix_ms : Option ℤ
  pub updated_at_unix_ms : Option ℤ
  pub signal_type : Option String
  pub signal_metadata : Option String
  pub status : BrokerOrderStatusV6
  pub revision : ℕ

pub record BrokerPositionV6 : Type 0 where
  pub market_id : String
  pub side : ContractSideV6
  pub quantity_hundredths : ℕ
  pub cost_basis_micros : ℕ
  pub fees_micros : ℕ

pub record BrokerDetailV6 : Type 0 where
  pub revision : ℕ
  pub reserved_cash_micros : ℕ
  pub positions : List BrokerPositionV6
  pub orders : List BrokerOrderV6

pub data CommandOutcomeV6 : Type 0 where
  accepted : CommandOutcomeV6
  refused : String → String → CommandOutcomeV6

pub record CommandReceiptV6 : Type 0 where
  pub command_id : String
  pub kind : BrokerCommandKindV6
  pub outcome : CommandOutcomeV6

pub data OrderUpdateStatusV6 : Type 0 where
  accepted resting partially_filled filled cancelled expired : OrderUpdateStatusV6
  refused : String → String → OrderUpdateStatusV6

-- `OrderUpdateStatusV6::is_terminal`
abbrev pub is_terminal_update : OrderUpdateStatusV6 → Bool
is_terminal_update OrderUpdateStatusV6.filled = true
is_terminal_update OrderUpdateStatusV6.cancelled = true
is_terminal_update OrderUpdateStatusV6.expired = true
is_terminal_update (OrderUpdateStatusV6.refused code reason) = true
is_terminal_update _ = false

-- The derived `==` of `OrderUpdateStatusV6`.
abbrev pub update_status_eq : OrderUpdateStatusV6 → OrderUpdateStatusV6 → Bool
update_status_eq OrderUpdateStatusV6.accepted OrderUpdateStatusV6.accepted = true
update_status_eq OrderUpdateStatusV6.resting OrderUpdateStatusV6.resting = true
update_status_eq OrderUpdateStatusV6.partially_filled OrderUpdateStatusV6.partially_filled = true
update_status_eq OrderUpdateStatusV6.filled OrderUpdateStatusV6.filled = true
update_status_eq OrderUpdateStatusV6.cancelled OrderUpdateStatusV6.cancelled = true
update_status_eq OrderUpdateStatusV6.expired OrderUpdateStatusV6.expired = true
update_status_eq (OrderUpdateStatusV6.refused c r) (OrderUpdateStatusV6.refused d s) =
    str_eq c d && str_eq r s
update_status_eq _ _ = false

pub update_status_eq_refl : (s : OrderUpdateStatusV6) → update_status_eq s s ≡ true
update_status_eq_refl (OrderUpdateStatusV6.refused c r) = ground (arith, eq_iff c c, eq_iff r r)
update_status_eq_refl _ = refl

pub record RunnerEntryV6 : Type 0 where
  pub command_id : String
  pub kind : BrokerCommandKindV6
  pub client_order_id : Option String
  pub order_id : Option String
  pub market_id : Option String
  pub action : Option OrderActionV6
  pub side : Option ContractSideV6
  pub requested_quantity_hundredths : ℕ
  pub last_status : Option OrderUpdateStatusV6
  pub filled_quantity_hundredths : ℕ
  pub order_revision : ℕ
  pub issued_broker_revision : ℕ
  pub vanished : Bool
  pub vanished_revision : ℕ
  pub absent_views : ℕ
  pub delivery_failures : ℕ
  pub delivery_deferrals : ℕ

-- `RunnerEntryV6::is_live`
abbrev pub is_live : RunnerEntryV6 → Bool
is_live entry = not entry.vanished

pub record RunnerSectionV6 : Type 0 where
  pub seeded : Bool
  pub newest_view_revision : ℕ
  pub entries : List RunnerEntryV6

pub record OrderUpdateRecordV6 : Type 0 where
  pub command_id : String
  pub kind : BrokerCommandKindV6
  pub client_order_id : Option String
  pub order_id : Option String
  pub market_id : Option String
  pub action : Option OrderActionV6
  pub side : Option ContractSideV6
  pub status : OrderUpdateStatusV6
  pub requested_quantity_hundredths : ℕ
  pub filled_quantity_hundredths : ℕ
  pub remaining_quantity_hundredths : ℕ
  pub newly_filled_quantity_hundredths : ℕ
  pub average_fill_price_micros : Option ℕ
  pub fees_micros : ℕ
  pub is_final : Bool
  pub vanished : Bool
