-- ===== src/Tests/Calls.antt =====
-- A kernel's calls on a sample host.
use strategy_core.Common.{
  ◌++◌, ℕ, zero, suc, ◌+◌, ◌-◌, ◌^◌, ◌≤◌, ◌≡◌, ◌⊎◌, refl, min, max, true, false, Option, none, some,
  [], ◌∷◌, length, map, All, ok, if◌then◌else◌, ◌==◌, arith,
}
use strategy_core.Common.Int.{pos}
use strategy_core.Wire.Text.{valid_identifier, valid_provider_client_id}
use strategy_core.Wire.Commands.{command_id}
use strategy_core.Host.Admission.{next_ordinal, issue_broker_command}
use strategy_core.Plan.Terms.{place_order_terms_error}
use strategy_core.Fees.Reserve.{buy_commitment_micros}
use strategy_core.Wire.Request.{validate_command}
use strategy_core.Common.{count_if}
use strategy_core.Wire.Orders.{is_live}
use strategy_core.Host.Reachable.{decision_plan_rows_v6-Called}
use strategy_core.Plan.Rows.{
  DeploymentModeV6, decision_plan_rows_v6, max_open_orders, open_orders, total, add, new_rows,
}
use strategy_core.Fees.Schedule.{OrderAction}
use strategy_core.Actions.{ContractSide, PlaceOrderRequest, CancelTarget, resting_limit}
use strategy_core.Host.State.{
  KernelError, KernelHost, ProvisionalOrder, buying_power_micros, fee_terms,
}
use strategy_core.Host.Orders.{place, provisional_of}
use strategy_core.Actions.Views.{BrokerOrderStatus, as_str}
use strategy_core.Host.Views.{Clock, placed_view, order_status}
use strategy_core.Host.Orders.{committed}
use strategy_core.Host.Views.{pending_orders}
use strategy_core.Host.Pending.{pending_orders-place}
use strategy_core.Host.Shown.{order_status-place, order_status-cancel}
use strategy_core.Host.Cancels.{cancel}
use strategy_core.Host.Calls.{Call, call, after}
use strategy_core.Host.Sound.{Numbered, clients, commitments, Distinct, reported}
use strategy_core.Host.Called.{Begun, Called}
use strategy_core.Host.Refusals.{call-Refuses}
use strategy_core.Host.Kept.{
  validate_command-Called, open_orders-Called, buying_power_micros-Called,
}
use strategy_core.Tests.Host.{sample_len, start_host, numbered}

-- The price of 40 cents, by its bits.
abbrev pub sample_price : ℕ → Option ℕ
sample_price bits = if bits == 4600877379321698714 then some 400000 else none

abbrev pub sample_request : PlaceOrderRequest
sample_request =
    resting_limit "m1" OrderAction.buy ContractSide.yes_side (record { hundredths = pos 100 })
      4600877379321698714

abbrev placed : KernelHost
placed = after (call sample_len sample_price start_host (Call.place_order sample_request))

abbrev cancelled : KernelHost
cancelled = after (
    call sample_len sample_price placed
      (Call.cancel_order (CancelTarget.client_order_id "tv3live_a")))

numbered-valid : (n : ℕ) → valid_identifier (numbered n) ≡ true
unfolding valid_identifier
numbered-valid zero = refl
numbered-valid (suc zero) = refl
numbered-valid (suc (suc n)) = refl

pub start-Begun : Begun start_host
unfolding valid_identifier
start-Begun = record {
  no_commands = refl;
  no_orders = refl;
  ids = record { commands = numbered-valid; generation = refl };
  order_ids = (refl, tt);
  u64_commitment = omega arith;
  u64_reserved = omega arith;
}

cancelled-Called : Called sample_len sample_price start_host cancelled
cancelled-Called =
    Called.called placed (Call.cancel_order (CancelTarget.client_order_id "tv3live_a"))
      (Called.called start_host (Call.place_order sample_request) Called.begun)

both_issued :
    (length cancelled.commands ≡ 2)
    × (map (λ o. o.cancellation_requested) cancelled.provisional ≡ true ∷ [])
    × (commitments cancelled.provisional ≡ 416900)
unfolding call place cancel resting_limit next_ordinal place_order_terms_error fee_terms
    buy_commitment_micros valid_provider_client_id valid_identifier validate_command command_id
    issue_broker_command total add new_rows
both_issued = (refl, refl, refl)

validate_command-Called_example :
    All (λ c. validate_command c ≡ ok tt) cancelled.commands
    × Numbered start_host.context.ids 0 cancelled.commands
validate_command-Called_example =
    validate_command-Called sample_len sample_price start_host cancelled start-Begun
      cancelled-Called

decision_plan_rows_v6-Called_example :
    (length cancelled.commands ≤ 64)
    × (decision_plan_rows_v6 start_host.broker DeploymentModeV6.live [] cancelled.commands ≤ 512)
    × (count_if is_live cancelled.runner + cancelled.reinstatable_live
        ≤ max 256 (count_if is_live start_host.runner + start_host.reinstatable_live))
decision_plan_rows_v6-Called_example =
    decision_plan_rows_v6-Called sample_len sample_price start_host [] DeploymentModeV6.live
      cancelled (record { no_commands = refl; no_rows = refl }) cancelled-Called

open_orders-Called_example :
    (length cancelled.provisional + open_orders start_host.broker
      ≤ max (open_orders start_host.broker) (max_open_orders start_host.context.deployment_mode))
    × Distinct (clients cancelled.provisional)
    × All (λ id. reported start_host.broker.orders id ≡ false) (clients cancelled.provisional)
open_orders-Called_example =
    open_orders-Called sample_len sample_price start_host cancelled start-Begun cancelled-Called

buying_power_micros-Called_example :
    buying_power_micros cancelled.finances
    ≡ min
        (5_000_000 - min (160000 + commitments cancelled.provisional) (2 ^ 64 - 1))
        (9_000_000 - min (160000 + commitments cancelled.provisional) (2 ^ 64 - 1))
buying_power_micros-Called_example =
    buying_power_micros-Called sample_len sample_price start_host cancelled start-Begun
      cancelled-Called

-- A place in an unknown market.
call-Refuses_example :
    (d : Option KernelError) × (start_host ≡ record start_host { deferrable = d })
    × ((d ≡ none)
        ⊎ ((d ≡ none)
            ⊎ (d ≡ some (KernelError.invalid_order "the market is not in the Sleeve's scope"))))
unfolding call place resting_limit next_ordinal
call-Refuses_example =
    call-Refuses sample_len start_host sample_price
      (Call.place_order (
        resting_limit "m2" OrderAction.buy ContractSide.yes_side (record { hundredths = pos 100 })
          4600877379321698714))
      (KernelError.invalid_order "the market is not in the Sleeve's scope") start_host refl

abbrev submitted_order : ProvisionalOrder
submitted_order = provisional_of sample_request "tv3live_a" 416900

abbrev sample_clock : Clock
sample_clock = record { price = λ micros. micros; millis = λ ms. some ms }

shown_place : order_status sample_clock placed "tv3live_a" ≡ some (placed_view submitted_order)
unfolding call place cancel resting_limit next_ordinal place_order_terms_error fee_terms
    buy_commitment_micros valid_provider_client_id valid_identifier validate_command command_id
    issue_broker_command total add new_rows order_status as_str
shown_place = refl

order_status-place_example :
    order_status sample_clock placed "tv3live_a"
    ≡ some (record {
      order_id = "";
      client_order_id = "tv3live_a";
      status = BrokerOrderStatus.submitted;
      requested_quantity = record { hundredths = pos 100 };
      filled_quantity = record { hundredths = pos 0 };
      remaining_quantity = record { hundredths = pos 100 };
      reason = "submitted";
      updated_at = none;
    })
unfolding call place cancel resting_limit next_ordinal place_order_terms_error fee_terms
    buy_commitment_micros valid_provider_client_id valid_identifier validate_command command_id
    issue_broker_command total add new_rows
order_status-place_example =
    order_status-place sample_len sample_price sample_clock start_host placed sample_request
      "command.a" "tv3live_a" refl

pending_orders-place_example :
    (reserved : ℕ) × (placed.finances ≡ committed start_host.finances reserved)
    × (pending_orders sample_clock placed
        ≡ pending_orders sample_clock start_host
          ++ record {
            order_id = "";
            ticker = sample_request.ticker;
            status = "submitted";
            action = "buy";
            contract_side = "yes";
            limit_price = sample_request.limit_price;
            requested_quantity = record { hundredths = pos 100 };
            filled_quantity = record { hundredths = pos 0 };
            remaining_quantity = record { hundredths = pos 100 };
            reserved_cost = reserved;
            client_order_id = some "tv3live_a";
            created_at = none;
            updated_at = none;
          }
            ∷ [])
unfolding call place cancel resting_limit next_ordinal place_order_terms_error fee_terms
    buy_commitment_micros valid_provider_client_id valid_identifier validate_command command_id
    issue_broker_command total add new_rows
pending_orders-place_example =
    pending_orders-place sample_len sample_price sample_clock start_host placed sample_request
      "command.a" "tv3live_a" refl

order_status-cancel_example :
    order_status sample_clock cancelled "tv3live_a"
    ≡ some (record {
      order_id = "";
      client_order_id = "tv3live_a";
      status = BrokerOrderStatus.cancellation_requested;
      requested_quantity = record { hundredths = pos 100 };
      filled_quantity = record { hundredths = pos 0 };
      remaining_quantity = record { hundredths = pos 100 };
      reason = "cancellation_requested";
      updated_at = none;
    })
unfolding call place cancel resting_limit next_ordinal place_order_terms_error fee_terms
    buy_commitment_micros valid_provider_client_id valid_identifier validate_command command_id
    issue_broker_command total add new_rows
order_status-cancel_example =
    order_status-cancel sample_len sample_clock placed cancelled "tv3live_a" "command.b"
      submitted_order refl refl
