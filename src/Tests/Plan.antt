-- ===== src/Tests/Plan.antt =====
-- The order terms and the plan rows at sample commands.
use strategy_core.Common.{◌+◌, ◌*◌, ◌≤◌, ◌≡◌, ◌↔◌, refl, none, some, List, [], ◌∷◌, arith}
use strategy_core.Wire.Orders.{OrderTypeV6}
use strategy_core.Wire.Commands.{StrategyCommandV6}
use strategy_core.Plan.Terms.{
  TermsAgree, place_order_terms_error, place_order_terms_error_lem, terms_error,
}
use strategy_core.Plan.Rows.{
  DeploymentModeV6, decision_plan_rows_v6, total, add_all, add, new_rows, open_keys,
  cancel_all_rows, open_orders,
}
use strategy_core.Plan.Budget.{most_of, decision_plan_rows_v6-le, cancel_all_orders-fits}
use strategy_core.Tests.Samples.{limit_buy, one_order}

-- A market buy with a limit price.
terms_test :
    place_order_terms_error (record limit_buy { order_type = OrderTypeV6.market })
    ≡ some "a market order has no limit price"
unfolding place_order_terms_error terms_error
terms_test = refl

place_order_terms_error_lem_example :
    (place_order_terms_error limit_buy ≡ none) ↔ TermsAgree limit_buy
place_order_terms_error_lem_example = place_order_terms_error_lem limit_buy

-- A place, a cancel-all of it and of the context's order, and another place.
abbrev three_commands : List StrategyCommandV6
three_commands =
    StrategyCommandV6.place_order limit_buy
    ∷ StrategyCommandV6.cancel_all_orders "a1"
    ∷ StrategyCommandV6.place_order (record limit_buy { provider_client_id = "c2" })
    ∷ []

rows_test : decision_plan_rows_v6 one_order DeploymentModeV6.live [] three_commands ≡ 18
unfolding decision_plan_rows_v6 total add_all add cancel_all_rows new_rows open_keys
rows_test = refl

decision_plan_rows_v6-le_example :
    decision_plan_rows_v6 one_order DeploymentModeV6.live [] three_commands
    ≤ 5 + most_of three_commands + 3 * open_orders one_order
decision_plan_rows_v6-le_example =
    decision_plan_rows_v6-le one_order DeploymentModeV6.live [] three_commands

cancel_all_orders-fits_example :
    decision_plan_rows_v6 one_order DeploymentModeV6.paper []
      (StrategyCommandV6.cancel_all_orders "a1" ∷ [])
    ≤ 512
cancel_all_orders-fits_example =
    cancel_all_orders-fits one_order DeploymentModeV6.paper [] "a1" (omega arith)
