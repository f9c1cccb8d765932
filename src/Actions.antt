-- ===== src/Actions.antt =====
-- What a kernel asks of its host and what it is shown of its orders
-- (native/strategy_core_kernel/src/actions.rs). A binary floating-point number is its 64 bits, an
-- instant its nanoseconds since the epoch.
pub mod Views
use strategy_core.Common.{ℕ, String, Bool, false, Option, none, some, List}
use strategy_core.Common.Int.{ℤ}
use strategy_core.Fees.Schedule.{OrderAction, ContractQuantity}

pub data ContractSide : Type 0 where
  yes_side no_side : ContractSide

pub data OrderType : Type 0 where
  market limit : OrderType

pub data TimePolicy : Type 0 where
  good_till_canceled immediate_or_cancel fill_or_kill : TimePolicy

pub record PlaceOrderRequest : Type 0 where
  pub ticker : String
  pub action : OrderAction
  pub contract_side : ContractSide
  pub order_type : OrderType
  pub quantity : ContractQuantity
  pub limit_price : Option ℕ
  pub market_price_cap : Option ℕ
  pub time_policy : TimePolicy
  pub post_only : Bool
  pub expires_after_ms : Option ℤ
  pub reduce_only : Bool
  pub signal_type : Option String
  pub signal_metadata : Option String
  pub client_order_id : Option String

-- `PlaceOrderRequest::resting_limit`
unfoldable pub resting_limit :
    String → OrderAction → ContractSide → ContractQuantity → ℕ → PlaceOrderRequest
resting_limit ticker action side quantity price = record {
  ticker = ticker;
  action = action;
  contract_side = side;
  order_type = OrderType.limit;
  quantity = quantity;
  limit_price = some price;
  market_price_cap = none;
  time_policy = TimePolicy.good_till_canceled;
  post_only = false;
  expires_after_ms = none;
  reduce_only = false;
  signal_type = none;
  signal_metadata = none;
  client_order_id = none;
}

-- `PlaceOrderRequest::direct`
unfoldable pub direct :
    String → OrderAction → ContractSide → ContractQuantity → ℕ → PlaceOrderRequest
unfolding resting_limit
direct ticker action side quantity price =
    record (resting_limit ticker action side quantity price) {
      time_policy = TimePolicy.immediate_or_cancel;
    }

-- `PlaceOrderRequest::sweep`
unfoldable pub sweep : String → ContractSide → ContractQuantity → ℕ → PlaceOrderRequest
unfolding direct
sweep ticker side quantity cap = record (direct ticker OrderAction.buy side quantity cap) {
  order_type = OrderType.market;
  limit_price = none;
  market_price_cap = some cap;
}

pub data CancelTarget : Type 0 where
  order_id client_order_id : String → CancelTarget

pub record WakeAtRequest : Type 0 where
  pub when : ℤ
  pub name : Option String

pub record TimerHandle : Type 0 where
  pub key : String
  pub generation : String

pub data HttpMethod : Type 0 where
  get post : HttpMethod

pub record HttpRequest : Type 0 where
  pub endpoint : String
  pub method : HttpMethod
  pub path : String
  pub body : List ℕ
  pub timeout_ms : ℕ

pub record CommandRequest : Type 0 where
  pub command : String
  pub args : List String
  pub stdin : List ℕ
  pub timeout_ms : ℕ
