-- ===== src/Plan/Rows.antt =====
-- The account plan rows of a decision's Broker commands (`DecisionPlanRows` and
-- `decision_plan_rows_v6` in native/strategy_core_v3/src/decision_v6.rs).
use strategy_core.Common.{
  ℕ, ◌+◌, ◌-◌, ◌*◌, ◌/◌, max, String, Bool, true, false, not, ◌&&◌, List, [], ◌∷◌, any, count_if,
  length, str_eq, ◌==◌, if◌then◌else◌,
}
use strategy_core.Wire.Bounds.{
  place_order_plan_rows, cancel_order_plan_rows, cancel_all_orders_plan_rows,
  collapsed_place_plan_rows, refused_command_plan_rows, decision_plan_rows,
  acknowledgement_plan_rows, max_decision_plan_rows, max_open_orders_paper,
}
use strategy_core.Wire.Orders.{BrokerOrderV6, BrokerDetailV6, is_terminal}
use strategy_core.Wire.Commands.{StrategyCommandV6, CancelTargetV6}

pub data DeploymentModeV6 : Type 0 where
  paper live : DeploymentModeV6

abbrev pub max_open_orders_live : ℕ
max_open_orders_live =
    (max_decision_plan_rows - decision_plan_rows - acknowledgement_plan_rows - 3)
    / cancel_order_plan_rows

abbrev pub max_open_orders : DeploymentModeV6 → ℕ
max_open_orders DeploymentModeV6.paper = max_open_orders_paper
max_open_orders DeploymentModeV6.live = max_open_orders_live

-- A key of the active orders: `order:` and an order id, or `client:` and a client id.
pub data ActiveKey : Type 0 where
  order_key client_key : String → ActiveKey

abbrev key_eq : ActiveKey → ActiveKey → Bool
key_eq (ActiveKey.order_key a) (ActiveKey.order_key b) = str_eq a b
key_eq (ActiveKey.client_key a) (ActiveKey.client_key b) = str_eq a b
key_eq _ _ = false

-- `key.starts_with("order:")`
abbrev pub is_order_key : ActiveKey → Bool
is_order_key (ActiveKey.order_key a) = true
is_order_key (ActiveKey.client_key a) = false

-- `BTreeSet::insert`
abbrev pub insert_key : ActiveKey → List ActiveKey → List ActiveKey
insert_key key keys = if any (key_eq key) keys then keys else key ∷ keys

pub record DecisionPlanRows : Type 0 where
  pub rows : ℕ
  pub broker_commands : ℕ
  pub acknowledgements : Bool
  pub mode : DeploymentModeV6
  pub active_orders : List ActiveKey

-- The keys of the open orders, without duplicates.
unfoldable pub open_keys : List BrokerOrderV6 → List ActiveKey
open_keys [] = []
open_keys (o ∷ os) =
    let rest = open_keys os in
    if not (is_terminal o.status) then insert_key (ActiveKey.order_key o.order_id) rest else rest

-- `DecisionPlanRows::new`
unfoldable pub new_rows : BrokerDetailV6 → Bool → DeploymentModeV6 → DecisionPlanRows
unfolding open_keys
new_rows broker acknowledgements mode = record {
  rows = 0;
  broker_commands = 0;
  acknowledgements = acknowledgements;
  mode = mode;
  active_orders = open_keys broker.orders;
}

-- `DecisionPlanRows::total`
unfoldable pub total : DecisionPlanRows → ℕ
total r =
    if r.broker_commands == 0
    then 0
    else decision_plan_rows + r.rows + (if r.acknowledgements then acknowledgement_plan_rows else 0)

-- The order a cancel names is final in the context.
unfoldable pub final_target : BrokerDetailV6 → String → Bool
final_target broker order_id =
    any (λ (o : BrokerOrderV6). str_eq o.order_id order_id && is_terminal o.status) broker.orders

unfoldable pub cancel_rows : BrokerDetailV6 → CancelTargetV6 → ℕ
unfolding final_target
cancel_rows broker (CancelTargetV6.order order_id revision) =
    if final_target broker order_id then refused_command_plan_rows else cancel_order_plan_rows
cancel_rows broker (CancelTargetV6.same_decision id) = cancel_order_plan_rows

unfoldable pub cancel_all_rows : DeploymentModeV6 → List ActiveKey → ℕ
cancel_all_rows DeploymentModeV6.paper active = cancel_all_orders_plan_rows + length active
cancel_all_rows DeploymentModeV6.live active =
    let context_orders = count_if is_order_key active in
    let own_places = length active - context_orders in
    max (cancel_order_plan_rows * context_orders + collapsed_place_plan_rows * own_places)
      refused_command_plan_rows

-- One more Broker command with its rows.
abbrev pub counted : DecisionPlanRows → ℕ → List ActiveKey → DecisionPlanRows
counted r more active = record r {
  rows = r.rows + more;
  broker_commands = r.broker_commands + 1;
  active_orders = active;
}

-- `DecisionPlanRows::add`, which is also `with`.
unfoldable pub add : DecisionPlanRows → StrategyCommandV6 → BrokerDetailV6 → DecisionPlanRows
unfolding cancel_rows cancel_all_rows
add r (StrategyCommandV6.place_order placed) broker =
    counted r place_order_plan_rows
      (insert_key (ActiveKey.client_key placed.provider_client_id) r.active_orders)
add r (StrategyCommandV6.cancel_order id target) broker =
    counted r (cancel_rows broker target) r.active_orders
add r (StrategyCommandV6.cancel_all_orders id) broker =
    counted r (cancel_all_rows r.mode r.active_orders) []
add r (StrategyCommandV6.schedule_timer id key at generation semantics) broker = r
add r (StrategyCommandV6.cancel_timer id key generation) broker = r
add r (StrategyCommandV6.stop id reason) broker = r
add r (StrategyCommandV6.external_request id kind target payload timeout) broker = r

-- The open orders of the context.
abbrev pub open_orders : BrokerDetailV6 → ℕ
open_orders broker = count_if (λ (o : BrokerOrderV6). not (is_terminal o.status)) broker.orders

unfoldable pub add_all :
    DecisionPlanRows → List StrategyCommandV6 → BrokerDetailV6 → DecisionPlanRows
unfolding add
add_all r [] broker = r
add_all r (c ∷ commands) broker = add_all (add r c broker) commands broker

-- The rows of a result's commands, over the context's Broker and mode.
unfoldable pub decision_plan_rows_v6 :
    BrokerDetailV6 → DeploymentModeV6 → List String → List StrategyCommandV6 → ℕ
unfolding new_rows total add_all
decision_plan_rows_v6 broker mode acknowledged commands =
    total (add_all (new_rows broker (not (length acknowledged == 0)) mode) commands broker)
