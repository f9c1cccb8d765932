-- ===== src/Actions/Views.antt =====
-- The status of an order and the views of orders
-- (native/strategy_core_kernel/src/actions.rs).
use strategy_core.Common.{ℕ, String, Bool, true, false, Option}
use strategy_core.Common.Int.{ℤ}
use strategy_core.Fees.Schedule.{ContractQuantity}

pub data BrokerOrderStatus : Type 0 where
  submitted accepted dispatched resting partially_filled filled : BrokerOrderStatus
  cancellation_requested cancelled expired rejected recovery_required : BrokerOrderStatus

-- `BrokerOrderStatus::as_str`
unfoldable pub as_str : BrokerOrderStatus → String
as_str BrokerOrderStatus.submitted = "submitted"
as_str BrokerOrderStatus.accepted = "accepted"
as_str BrokerOrderStatus.dispatched = "dispatched"
as_str BrokerOrderStatus.resting = "pending"
as_str BrokerOrderStatus.partially_filled = "partial"
as_str BrokerOrderStatus.filled = "filled"
as_str BrokerOrderStatus.cancellation_requested = "cancellation_requested"
as_str BrokerOrderStatus.cancelled = "cancelled"
as_str BrokerOrderStatus.expired = "expired"
as_str BrokerOrderStatus.rejected = "rejected"
as_str BrokerOrderStatus.recovery_required = "recovery_required"

-- `BrokerOrderStatus::is_terminal`
abbrev pub is_terminal_status : BrokerOrderStatus → Bool
is_terminal_status BrokerOrderStatus.filled = true
is_terminal_status BrokerOrderStatus.cancelled = true
is_terminal_status BrokerOrderStatus.expired = true
is_terminal_status BrokerOrderStatus.rejected = true
is_terminal_status _ = false

pub record OrderStatusView : Type 0 where
  pub order_id : String
  pub client_order_id : String
  pub status : BrokerOrderStatus
  pub requested_quantity : ContractQuantity
  pub filled_quantity : ContractQuantity
  pub remaining_quantity : ContractQuantity
  pub reason : String
  pub updated_at : Option ℤ

-- `reserved_cost` in microdollars, which the source shows in dollars.
pub record PendingOrderView : Type 0 where
  pub order_id : String
  pub ticker : String
  pub status : String
  pub action : String
  pub contract_side : String
  pub limit_price : Option ℕ
  pub requested_quantity : ContractQuantity
  pub filled_quantity : ContractQuantity
  pub remaining_quantity : ContractQuantity
  pub reserved_cost : ℕ
  pub client_order_id : Option String
  pub created_at : Option ℤ
  pub updated_at : Option ℤ
