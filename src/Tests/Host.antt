-- ===== src/Tests/Host.antt =====
-- The admission of commands by a sample host, and the checks of a Broker detail and of a request.
use strategy_core.Common.{
  ℕ, zero, suc, ◌*◌, ◌≡◌, refl, true, false, none, some, List, [], ◌∷◌, ◌++◌, length, All, Elem, ok,
  String, str_eq, if◌then◌else◌, ◌==◌,
}
use strategy_core.Wire.Orders.{BrokerOrderV6}
use strategy_core.Wire.Commands.{HttpMethodV6, command_id}
use strategy_core.Wire.Text.{codes, unique, unique_from, valid_identifier}
use strategy_core.Wire.Broker.{
  validate_broker_order_v6, order_names_valid, quantities_valid, order_prices_valid,
  valid_order_reservation, order_texts_valid,
}
use strategy_core.Wire.Detail.{OwnerView, validate_broker, strictly_sorted, sorted_from}
use strategy_core.Wire.Paths.{split, route_of, contains_codes, valid_http_path, valid_http_codes}
use strategy_core.Wire.Request.{
  valid_external_request_target, request_bytes, validate_external_request, validate_kind,
  validate_command,
}
use strategy_core.Wire.Contained.{decode_dots, resolve, segments, Rooted, resolve-validate_command}
use strategy_core.Plan.Rows.{DeploymentModeV6, new_rows}
use strategy_core.Host.State.{KernelHost, MarketState, Ids, HostInvocation}
use strategy_core.Common.Int.{pos}
use strategy_core.Host.Admission.{EncodedLen}
use strategy_core.Updates.Compare.{by_command, by_client}
use strategy_core.Updates.Derive.{view}
use strategy_core.Updates.Lookup.{validate_broker-by_command}
use strategy_core.Tests.Samples.{one_order}

abbrev pub sample_len : EncodedLen
sample_len = record {
  of_commands = λ cs. 200 * length cs;
  of_entries = λ es. 100 * length es;
  of_command = λ c. 200;
  of_entry = λ e. 100;
}

abbrev pub sample_market : MarketState
sample_market = record {
  market_id = "m1";
  fee_type = "quadratic";
  fee_multiplier_millionths = some (pos 1_000_000);
}

abbrev pub numbered : ℕ → String
numbered zero = "command.a"
numbered (suc zero) = "command.b"
numbered (suc (suc n)) = "command.c"

abbrev pub sample_ids : Ids
sample_ids = record {
  command_id = numbered;
  timer_generation = "timer.d1";
  provider_client_id = λ n. some (if n == 0 then "tv3live_a" else "tv3live_b");
}

abbrev pub sample_context : HostInvocation
sample_context = record {
  ids = sample_ids;
  orders_complete = true;
  deployment_mode = DeploymentModeV6.live;
  timers = true;
  external_requests = "http:weather" ∷ [];
}

abbrev pub start_host : KernelHost
start_host = record {
  market = λ ticker. if str_eq ticker "m1" then some sample_market else none;
  context = sample_context;
  broker = one_order;
  finances = record {
    allowance_limit_micros = 5_000_000;
    current_commitment_micros = 160000;
    provider_available_balance_micros = 9_000_000;
    locally_reserved_cash_micros = 160000;
  };
  provisional = [];
  cancellation_requested = [];
  commands = [];
  runner = [];
  rows = new_rows one_order false DeploymentModeV6.live;
  timer_keys = [];
  outputs = [];
  fixed_bytes = 150000;
  reinstatable_live = 0;
  empty_rows = new_rows one_order false DeploymentModeV6.live;
  derived_entries = 0;
  update_start = none;
  deferrable = none;
}

abbrev sample_owner : OwnerView
sample_owner = record {
  owner_revision = 8;
  fence_revision = 8;
  locally_reserved_cash = 160000;
  current_commitment = 160000;
  market_ids = "m1" ∷ [];
}

validate_broker-by_command_example :
    All (λ o. validate_broker_order_v6 o ("m1" ∷ []) ≡ ok tt) one_order.orders
    × ((o : BrokerOrderV6)
        → Elem o one_order.orders
        → (by_command (view one_order true []) o.command_id ≡ some o)
          × (by_client (view one_order true []) o.provider_client_id ≡ some o))
unfolding validate_broker strictly_sorted sorted_from unique unique_from validate_broker_order_v6
    order_names_valid quantities_valid order_prices_valid valid_order_reservation order_texts_valid
    valid_identifier
validate_broker-by_command_example = validate_broker-by_command sample_owner one_order true [] refl

abbrev base : List ℕ
base = codes "/api/v1"

-- A path with dots in a name, and an encoded dot after the route.
resolve-validate_command_example :
    Rooted (codes "/a/..b?c=%2e")
    × (resolve [] (segments (base ++ decode_dots (route_of (codes "/a/..b?c=%2e"))))
        ≡ codes "..b" ∷ codes "a" ∷ codes "v1" ∷ codes "api" ∷ [] ∷ [])
unfolding validate_command validate_kind validate_external_request request_bytes
    valid_external_request_target valid_http_path valid_http_codes contains_codes route_of split
    valid_identifier command_id resolve
resolve-validate_command_example =
    resolve-validate_command base "e1" "weather" "/a/..b?c=%2e" HttpMethodV6.get [] 1000 refl
