-- ===== src/Host/State.antt =====
-- The state of the host that takes a kernel's calls (`KernelHost` in
-- native/strategy_core_v3/src/kernel_v6.rs), and what is saved and restored of it around an order
-- update. Of the host's snapshot the model keeps the lookup of a market, of a Market its fee
-- authority (native/strategy_core_kernel/src/state.rs), and of the identity the ids that it derives.
use strategy_core.Common.{
  take, drop, ℕ, ◌-◌, min, Bool, true, false, String, Option, none, some, List, ◌++◌, length,
  filter,
}
use strategy_core.Common.Int.{ℤ}
use strategy_core.Wire.Results.{TelemetryEntryV6}
use strategy_core.Wire.Orders.{BrokerDetailV6, RunnerEntryV6}
use strategy_core.Wire.Commands.{StrategyCommandV6}
use strategy_core.Plan.Rows.{DecisionPlanRows, DeploymentModeV6}
use strategy_core.Fees.Schedule.{
  FeeError, FeeResult, FeeTerms, OrderAction, ContractQuantity, from_market,
}
use strategy_core.Actions.{ContractSide, CancelTarget}
use strategy_core.Updates.Records.{Failure}

-- The messages of the refusals: the text after `invalid order:`, or a value that is formatted.
pub data KernelError : Type 0 where
  too_many_commands result_too_large too_many_entries : KernelError
  too_many_rows too_many_open_orders : ℕ → KernelError
  invalid_order : String → KernelError
  invalid_order_fees : FeeError → KernelError
  no_derived_id : KernelError
  invalid_cancel : CancelTarget → KernelError
  truncated_orders timers_not_granted timer_outside_epoch invalid_stop_reason : KernelError
  invalid_timer_key timer_key_used invalid_timer_generation : String → KernelError
  request_not_granted : String → String → KernelError
  request_timeout request_path request_bounds too_many_requests : KernelError

-- `MarketState`, less all but its id and its fee authority, which is what the host reads of it.
pub record MarketState : Type 0 where
  pub market_id : String
  pub fee_type : String
  pub fee_multiplier_millionths : Option ℤ

-- `MarketState::fee_terms`
unfoldable pub fee_terms : MarketState → FeeResult FeeTerms
unfolding from_market
fee_terms market = from_market market.fee_type market.fee_multiplier_millionths

pub record BrokerFinancialState : Type 0 where
  pub allowance_limit_micros : ℕ
  pub current_commitment_micros : ℕ
  pub provider_available_balance_micros : ℕ
  pub locally_reserved_cash_micros : ℕ

-- `BrokerFinancialState::remaining_event_allowance_micros`
unfoldable pub remaining_event_allowance_micros : BrokerFinancialState → ℕ
remaining_event_allowance_micros f = f.allowance_limit_micros - f.current_commitment_micros

-- `BrokerFinancialState::buying_power_micros`
unfoldable pub buying_power_micros : BrokerFinancialState → ℕ
unfolding remaining_event_allowance_micros
buying_power_micros f =
    min (remaining_event_allowance_micros f)
      (f.provider_available_balance_micros - f.locally_reserved_cash_micros)

pub record ProvisionalOrder : Type 0 where
  pub client_order_id : String
  pub ticker : String
  pub action : OrderAction
  pub side : ContractSide
  pub limit_price : Option ℕ
  pub quantity : ContractQuantity
  pub commitment_micros : ℕ
  pub cancellation_requested : Bool

-- The ids that a decision's identity derives, with digests.
pub record Ids : Type 0 where
  pub command_id : ℕ → String
  pub timer_generation : String
  pub provider_client_id : ℕ → Option String

-- `HostInvocation`, less the Broker detail.
pub record HostInvocation : Type 0 where
  pub ids : Ids
  pub orders_complete : Bool
  pub deployment_mode : DeploymentModeV6
  pub timers : Bool
  pub external_requests : List String

-- `LogAction`
pub record LogAction : Type 0 where
  pub level : String
  pub message : String

pub data HostOutput : Type 0 where
  log : LogAction → HostOutput
  telemetry : TelemetryEntryV6 → HostOutput
  update_error : String → Failure → HostOutput
  update_warning : String → String → HostOutput

pub record UpdateStart : Type 0 where
  pub commands : ℕ
  pub entries : ℕ

pub record KernelHost : Type 0 where
  pub market : String → Option MarketState
  pub context : HostInvocation
  pub broker : BrokerDetailV6
  pub finances : BrokerFinancialState
  pub provisional : List ProvisionalOrder
  pub cancellation_requested : List String
  pub commands : List StrategyCommandV6
  pub runner : List RunnerEntryV6
  pub rows : DecisionPlanRows
  pub timer_keys : List String
  pub outputs : List HostOutput
  pub fixed_bytes : ℕ
  pub reinstatable_live : ℕ
  pub empty_rows : DecisionPlanRows
  pub derived_entries : ℕ
  pub update_start : Option UpdateStart
  pub deferrable : Option KernelError

pub record SavedDecision : Type 0 where
  pub finances : BrokerFinancialState
  pub provisional : List ProvisionalOrder
  pub cancellation_requested : List String
  pub commands : List StrategyCommandV6
  pub runner : List RunnerEntryV6
  pub rows : DecisionPlanRows
  pub timer_keys : List String
  pub outputs_len : ℕ

unfoldable pub save : KernelHost → SavedDecision
save h = record {
  finances = h.finances;
  provisional = h.provisional;
  cancellation_requested = h.cancellation_requested;
  commands = h.commands;
  runner = h.runner;
  rows = h.rows;
  timer_keys = h.timer_keys;
  outputs_len = length h.outputs;
}

-- What stays of the outputs of an update that is rolled back.
abbrev pub stays : HostOutput → Bool
stays (HostOutput.log entry) = true
stays (HostOutput.update_error text failure) = true
stays _ = false

unfoldable pub restore : KernelHost → SavedDecision → KernelHost
restore h saved = record h {
  finances = saved.finances;
  provisional = saved.provisional;
  cancellation_requested = saved.cancellation_requested;
  commands = saved.commands;
  runner = saved.runner;
  rows = saved.rows;
  timer_keys = saved.timer_keys;
  outputs =
      take saved.outputs_len h.outputs
      ++ filter stays (drop (min saved.outputs_len (length h.outputs)) h.outputs);
}

-- `begin_update`: the start of the delivery unit, now if it has not begun, and the host.
unfoldable pub begin_update : KernelHost → Option UpdateStart → UpdateStart × KernelHost
begin_update h unit =
    let start : UpdateStart = elim unit [
      | none ↦ record { commands = length h.commands; entries = length h.runner }
      | some begun ↦ begun
    ] in
    (start, record h { update_start = some start; deferrable = none })

-- `end_update`: the refusal that defers the update, and the host.
unfoldable pub end_update : KernelHost → Option KernelError × KernelHost
end_update h = (h.deferrable, record h { update_start = none; deferrable = none })
