-- ===== src/Wire/Commands.antt =====
-- The commands a decision returns (native/strategy_core_v3/src/decision_v6.rs). Bytes are lists of
-- numbers.
use strategy_core.Common.{ℕ, String, Bool, true, List, Option, none, some, is_some}
use strategy_core.Common.Int.{ℤ}
use strategy_core.Wire.Orders.{
  OrderActionV6, ContractSideV6, OrderTypeV6, TimePolicyV6, BrokerCommandKindV6,
}

pub data HttpMethodV6 : Type 0 where
  get post : HttpMethodV6

pub data ExternalRequestKindV6 : Type 0 where
  http : HttpMethodV6 → String → ExternalRequestKindV6
  command : List String → ExternalRequestKindV6

pub record PlaceOrderV6 : Type 0 where
  pub command_id : String
  pub market_id : String
  pub action : OrderActionV6
  pub side : ContractSideV6
  pub order_type : OrderTypeV6
  pub quantity_hundredths : ℕ
  pub limit_price_micros : Option ℕ
  pub market_price_cap_micros : Option ℕ
  pub time_policy : TimePolicyV6
  pub post_only : Bool
  pub expires_after_ms : Option ℤ
  pub reduce_only : Bool
  pub provider_client_id : String
  pub signal_type : Option String
  pub signal_metadata : Option String
  pub metadata : List ℕ

pub data CancelTargetV6 : Type 0 where
  order : String → ℕ → CancelTargetV6
  same_decision : String → CancelTargetV6

-- The constructors' arguments are the variants' fields in order, the command id first.
pub data StrategyCommandV6 : Type 0 where
  place_order : PlaceOrderV6 → StrategyCommandV6
  cancel_order : String → CancelTargetV6 → StrategyCommandV6
  cancel_all_orders : String → StrategyCommandV6
  schedule_timer : String → String → ℕ → String → List ℕ → StrategyCommandV6
  cancel_timer : String → String → String → StrategyCommandV6
  stop : String → String → StrategyCommandV6
  external_request : String → ExternalRequestKindV6 → String → List ℕ → ℕ → StrategyCommandV6

-- `StrategyCommandV6::command_id`
unfoldable pub command_id : StrategyCommandV6 → String
command_id (StrategyCommandV6.place_order placed) = placed.command_id
command_id (StrategyCommandV6.cancel_order id target) = id
command_id (StrategyCommandV6.cancel_all_orders id) = id
command_id (StrategyCommandV6.schedule_timer id key at generation semantics) = id
command_id (StrategyCommandV6.cancel_timer id key generation) = id
command_id (StrategyCommandV6.stop id reason) = id
command_id (StrategyCommandV6.external_request id kind target payload timeout) = id

-- `StrategyCommandV6::broker_kind`
abbrev pub broker_kind : StrategyCommandV6 → Option BrokerCommandKindV6
broker_kind (StrategyCommandV6.place_order placed) = some BrokerCommandKindV6.place_order
broker_kind (StrategyCommandV6.cancel_order id target) = some BrokerCommandKindV6.cancel_order
broker_kind (StrategyCommandV6.cancel_all_orders id) = some BrokerCommandKindV6.cancel_all_orders
broker_kind _ = none

-- `StrategyCommandV6::leaves_host`
unfoldable pub leaves_host : StrategyCommandV6 → Bool
leaves_host (StrategyCommandV6.external_request id kind target payload timeout) = true
leaves_host c = is_some (broker_kind c)
