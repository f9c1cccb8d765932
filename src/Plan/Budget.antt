-- ===== src/Plan/Budget.antt =====
-- How many plan rows a decision needs (`DecisionPlanRows` in
-- native/strategy_core_v3/src/decision_v6.rs).
use strategy_core.Common.{
  ℕ, ◌+◌, ◌*◌, ◌≤◌, String, not, List, [], ◌∷◌, count_if, count_if-le-length, length, arith, ◌==◌,
}
use strategy_core.Wire.Bounds.{max_decision_plan_rows}
use strategy_core.Wire.Orders.{BrokerOrderV6, BrokerDetailV6, is_terminal}
use strategy_core.Wire.Commands.{StrategyCommandV6, CancelTargetV6}
use strategy_core.Plan.Rows.{
  DeploymentModeV6, max_open_orders, is_order_key, DecisionPlanRows, open_keys, new_rows, total,
  cancel_rows, cancel_all_rows, add, add_all, open_orders, decision_plan_rows_v6,
}

open_keys-le :
    (os : List BrokerOrderV6)
    → length (open_keys os) ≤ count_if (λ (o : BrokerOrderV6). not (is_terminal o.status)) os
unfolding open_keys
open_keys-le [] = omega arith
open_keys-le (o ∷ os) = ground (arith, open_keys-le os)

-- What a cancel-all of the active orders may still cost.
abbrev pending : DecisionPlanRows → ℕ
pending r = 2 * count_if is_order_key r.active_orders + length r.active_orders

-- The rows a command adds at most, with what it adds to a later cancel-all.
abbrev pub most : StrategyCommandV6 → ℕ
most (StrategyCommandV6.place_order placed) = 6
most (StrategyCommandV6.cancel_order id target) = 3
most (StrategyCommandV6.cancel_all_orders id) = 3
most _ = 0

abbrev pub most_of : List StrategyCommandV6 → ℕ
most_of [] = 0
most_of (c ∷ cs) = most c + most_of cs

add-pending :
    (r : DecisionPlanRows) (c : StrategyCommandV6) (broker : BrokerDetailV6)
    → (add r c broker).rows + pending (add r c broker) ≤ r.rows + pending r + most c
unfolding add cancel_rows cancel_all_rows
add-pending r (StrategyCommandV6.place_order placed) broker = ground arith
add-pending r (StrategyCommandV6.cancel_order id (CancelTargetV6.order order_id revision)) broker =
    ground arith
add-pending r (StrategyCommandV6.cancel_order id (CancelTargetV6.same_decision own)) broker =
    ground arith
add-pending r (StrategyCommandV6.cancel_all_orders id) broker =
    ground (arith, count_if-le-length is_order_key r.active_orders)
add-pending r (StrategyCommandV6.schedule_timer id key at generation semantics) broker = omega arith
add-pending r (StrategyCommandV6.cancel_timer id key generation) broker = omega arith
add-pending r (StrategyCommandV6.stop id reason) broker = omega arith
add-pending r (StrategyCommandV6.external_request id kind target payload timeout) broker =
    omega arith

add_all-pending :
    (r : DecisionPlanRows) (cs : List StrategyCommandV6) (broker : BrokerDetailV6)
    → (add_all r cs broker).rows + pending (add_all r cs broker) ≤ r.rows + pending r + most_of cs
unfolding add_all
add_all-pending r [] broker = omega arith
add_all-pending r (c ∷ cs) broker =
    omega (arith, add_all-pending (add r c broker) cs broker, add-pending r c broker)

-- A decision needs at most 5 rows, 6 per place, 3 per cancel and cancel-all, and 3 per open order
-- of the context, however its places and cancel-alls alternate.
pub decision_plan_rows_v6-le :
    (broker : BrokerDetailV6) (mode : DeploymentModeV6) (acknowledged : List String)
    (commands : List StrategyCommandV6)
    → decision_plan_rows_v6 broker mode acknowledged commands
      ≤ 5 + most_of commands + 3 * open_orders broker
unfolding decision_plan_rows_v6 total new_rows
decision_plan_rows_v6-le broker mode acknowledged commands =
    let start = new_rows broker (not (length acknowledged == 0)) mode in
    ground (
      arith,
      add_all-pending start commands broker,
      open_keys-le broker.orders,
      count_if-le-length is_order_key (open_keys broker.orders),
    )

-- A cancel-all over every order that a Sleeve may hold open fits the decision plan.
pub cancel_all_orders-fits :
    (broker : BrokerDetailV6) (mode : DeploymentModeV6) (acknowledged : List String) (id : String)
    → open_orders broker ≤ max_open_orders mode
    → decision_plan_rows_v6 broker mode acknowledged (StrategyCommandV6.cancel_all_orders id ∷ [])
      ≤ max_decision_plan_rows
unfolding decision_plan_rows_v6 total new_rows add_all add cancel_all_rows
cancel_all_orders-fits broker mode acknowledged id h =
    ground
      (arith, open_keys-le broker.orders, count_if-le-length is_order_key (open_keys broker.orders))
