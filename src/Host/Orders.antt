-- ===== src/Host/Orders.antt =====
-- `place` of the kernel transaction host (native/strategy_core_v3/src/kernel_v6.rs). `price_micros`,
-- which rounds a binary floating-point price, is a parameter; a price's bits are a number.
use strategy_core.Common.{
  ℕ, ◌+◌, ◌-◌, min, ◌^◌, Bool, false, not, ◌||◌, String, Option, none, some, [], ◌∷◌, ◌++◌, length,
  any, Result, ok, err, ◌>>=◌, ◌>>◌, ok_or, fail_if, is_some_and, or_else, and_then, str_eq, ltb,
  leb, if◌then◌else◌,
}
use strategy_core.Wire.Bounds.{max_price_micros}
use strategy_core.Wire.Orders.{
  OrderActionV6, ContractSideV6, OrderTypeV6, TimePolicyV6, BrokerCommandKindV6, RunnerEntryV6,
}
use strategy_core.Wire.Commands.{PlaceOrderV6, StrategyCommandV6}
use strategy_core.Wire.Text.{codes, valid_provider_client_id}
use strategy_core.Wire.Paths.{is_prefix}
use strategy_core.Wire.Request.{validate_command}
use strategy_core.Plan.Terms.{place_order_terms_error}
use strategy_core.Plan.Rows.{max_open_orders, open_orders}
use strategy_core.Fees.Schedule.{FeeResult, OrderAction, ContractQuantity, try_unsigned}
use strategy_core.Fees.Reserve.{buy_commitment_micros}
use strategy_core.Actions.{ContractSide, OrderType, TimePolicy, PlaceOrderRequest}
use strategy_core.Host.State.{
  KernelError, KernelHost, MarketState, BrokerFinancialState, ProvisionalOrder, fee_terms,
}
use strategy_core.Host.Admission.{EncodedLen, Admitted, next_ordinal, issue_broker_command}

abbrev pub order_action_v6 : OrderAction → OrderActionV6
order_action_v6 OrderAction.buy = OrderActionV6.buy
order_action_v6 OrderAction.sell = OrderActionV6.sell

abbrev pub contract_side_v6 : ContractSide → ContractSideV6
contract_side_v6 ContractSide.yes_side = ContractSideV6.yes_side
contract_side_v6 ContractSide.no_side = ContractSideV6.no_side

abbrev order_type_v6 : OrderType → OrderTypeV6
order_type_v6 OrderType.market = OrderTypeV6.market
order_type_v6 OrderType.limit = OrderTypeV6.limit

abbrev time_policy_v6 : TimePolicy → TimePolicyV6
time_policy_v6 TimePolicy.good_till_canceled = TimePolicyV6.good_till_canceled
time_policy_v6 TimePolicy.immediate_or_cancel = TimePolicyV6.immediate_or_cancel
time_policy_v6 TimePolicy.fill_or_kill = TimePolicyV6.fill_or_kill

-- A refusal that leaves the host as it is.
abbrev pub denied : {A : Type 0} → KernelHost → Result KernelError A → Admitted A
denied h (ok value) = ok value
denied h (err message) = err (message, h)

abbrev invalid : {A : Type 0} → Option A → String → Result KernelError A
invalid value reason = ok_or value (KernelError.invalid_order reason)

-- `u64::try_from(quantity.hundredths())`, if it is positive
abbrev pub positive_quantity : ContractQuantity → Option ℕ
positive_quantity quantity =
    and_then (try_unsigned quantity.hundredths) λ n. if ltb 0 n then some n else none

-- `price.map(price_micros).transpose()`
abbrev pub priced : (ℕ → Option ℕ) → Option ℕ → Option (Option ℕ)
priced price_micros none = some none
priced price_micros (some bits) = elim (price_micros bits) [
  | none ↦ none
  | some micros ↦ some (some micros)
]

-- The order of a request, without its ids.
abbrev order_of : PlaceOrderRequest → ℕ → Option ℕ → Option ℕ → PlaceOrderV6
order_of request quantity limit cap = record {
  command_id = "";
  market_id = request.ticker;
  action = order_action_v6 request.action;
  side = contract_side_v6 request.contract_side;
  order_type = order_type_v6 request.order_type;
  quantity_hundredths = quantity;
  limit_price_micros = limit;
  market_price_cap_micros = cap;
  time_policy = time_policy_v6 request.time_policy;
  post_only = request.post_only;
  expires_after_ms = request.expires_after_ms;
  reduce_only = request.reduce_only;
  provider_client_id = "";
  signal_type = request.signal_type;
  signal_metadata = request.signal_metadata;
  metadata = [];
}

-- `if let Some(reason) = place_order_terms_error(&order)`
abbrev terms_checked : PlaceOrderV6 → Result KernelError PlaceOrderV6
terms_checked order = elim (place_order_terms_error order) [
  | none ↦ ok order
  | some reason ↦ err (KernelError.invalid_order reason)
]

-- The market and the order of a request, with the checks up to the order terms.
unfoldable pub checked_order :
    (ℕ → Option ℕ)
    → KernelHost
    → PlaceOrderRequest
    → Result KernelError (MarketState × PlaceOrderV6)
checked_order price_micros h request =
    invalid (h.market request.ticker) "the market is not in the Sleeve's scope" >>= λ market.
    invalid (positive_quantity request.quantity) "the quantity is not positive" >>= λ quantity.
    invalid (priced price_micros request.limit_price) "the limit price is not within [0, 1]"
    >>= λ limit.
        invalid (priced price_micros request.market_price_cap) "the price cap is not within (0, 1]"
        >>= λ cap.
            terms_checked (order_of request quantity limit cap) >>= λ order. ok (market, order)

abbrev fees_checked : {A : Type 0} → FeeResult A → Result KernelError A
fees_checked (ok value) = ok value
fees_checked (err error) = err (KernelError.invalid_order_fees error)

-- The price a buy commits: its limit price, its cap, or one dollar.
abbrev price_cap : PlaceOrderV6 → ℕ
price_cap order = elim (or_else order.limit_price_micros order.market_price_cap_micros) [
  | none ↦ max_price_micros
  | some cap ↦ cap
]

unfoldable pub commitment_of : MarketState → PlaceOrderRequest → PlaceOrderV6 → Result KernelError ℕ
commitment_of market request order = elim request.action [
  | OrderAction.sell ↦ ok 0
  | OrderAction.buy ↦ fees_checked (fee_terms market) >>= λ terms.
      fees_checked (buy_commitment_micros (price_cap order) request.quantity terms)
]

-- `KernelHost::open_orders`
abbrev pub host_open_orders : KernelHost → ℕ
host_open_orders h = open_orders h.broker + length h.provisional

-- Whether an order of this decision, of the Broker or of the runner section has a client order id.
unfoldable pub client_in_use : KernelHost → String → Bool
client_in_use h client =
    any (λ order. str_eq order.client_order_id client) h.provisional
    || any (λ order. str_eq order.provider_client_id client) h.broker.orders
    || any (λ entry. is_some_and entry.client_order_id (λ id. str_eq id client)) h.runner

abbrev reserved_prefix : String
reserved_prefix = "client order ids starting with \"tv3\" are reserved for the host"

-- The kernel's own client order id, or the derived one.
abbrev named_client : KernelHost → ℕ → Option String → Result KernelError String
named_client h ordinal (some client) =
    if is_prefix (codes "tv3") (codes client)
    then err (KernelError.invalid_order reserved_prefix)
    else ok client
named_client h ordinal none =
    ok_or (h.context.ids.provider_client_id ordinal) KernelError.no_derived_id

unfoldable pub checked_client : KernelHost → ℕ → Option String → Result KernelError String
unfolding client_in_use
checked_client h ordinal requested = named_client h ordinal requested >>= λ client.
    fail_if (not (valid_provider_client_id client)) (
      KernelError.invalid_order
        "the client order id is not a valid identifier of at most 128 bytes")
    >> (fail_if (client_in_use h client)
          (KernelError.invalid_order "the client order id is already in use")
        >> ok client)

-- The runner entry of a place.
abbrev pub place_entry_of : KernelHost → PlaceOrderV6 → RunnerEntryV6
place_entry_of h order = record {
  command_id = order.command_id;
  kind = BrokerCommandKindV6.place_order;
  client_order_id = some order.provider_client_id;
  order_id = none;
  market_id = some order.market_id;
  action = some order.action;
  side = some order.side;
  requested_quantity_hundredths = order.quantity_hundredths;
  last_status = none;
  filled_quantity_hundredths = 0;
  order_revision = 0;
  issued_broker_revision = h.broker.revision;
  vanished = false;
  vanished_revision = 0;
  absent_views = 0;
  delivery_failures = 0;
  delivery_deferrals = 0;
}

-- `validate_command_v6(&command).is_err()`
abbrev in_bounds : PlaceOrderV6 → Result KernelError (Unit {0})
in_bounds order = elim (validate_command (StrategyCommandV6.place_order order)) [
  | ok valid ↦ ok tt
  | err error ↦ err (KernelError.invalid_order "the request is outside the command bounds")
]

-- `u64::saturating_add`
abbrev pub saturating_add_u64 : ℕ → ℕ → ℕ
saturating_add_u64 a b = min (a + b) (2 ^ 64 - 1)

-- What a place's commitment adds to the finances.
unfoldable pub committed : BrokerFinancialState → ℕ → BrokerFinancialState
committed f amount = record f {
  current_commitment_micros = saturating_add_u64 f.current_commitment_micros amount;
  locally_reserved_cash_micros = saturating_add_u64 f.locally_reserved_cash_micros amount;
}

abbrev pub provisional_of : PlaceOrderRequest → String → ℕ → ProvisionalOrder
provisional_of request client commitment = record {
  client_order_id = client;
  ticker = request.ticker;
  action = request.action;
  side = request.contract_side;
  limit_price = request.limit_price;
  quantity = request.quantity;
  commitment_micros = commitment;
  cancellation_requested = false;
}

-- The order with its ids, after every check before it is issued, and what it commits.
unfoldable pub prepared :
    (ℕ → Option ℕ) → KernelHost → ℕ → PlaceOrderRequest → Result KernelError (PlaceOrderV6 × ℕ)
unfolding checked_order commitment_of checked_client
prepared price_micros h ordinal request =
    checked_order price_micros h request >>= λ (market, order).
    commitment_of market request order >>= λ commitment.
    fail_if (leb (max_open_orders h.context.deployment_mode) (host_open_orders h))
      (KernelError.too_many_open_orders (max_open_orders h.context.deployment_mode))
    >> (checked_client h ordinal request.client_order_id >>= λ client.
        let named = record order {
          command_id = h.context.ids.command_id ordinal;
          provider_client_id = client;
        } in
        in_bounds named >> ok (named, commitment))

-- The host with an issued place's bookkeeping.
abbrev pub booked : KernelHost → PlaceOrderRequest → PlaceOrderV6 → ℕ → KernelHost
booked h request order commitment = record h {
  finances = committed h.finances commitment;
  provisional = h.provisional ++ provisional_of request order.provider_client_id commitment ∷ [];
}

-- `KernelHost::place`: the ticket's command and client order id, and the host.
unfoldable pub place :
    EncodedLen
    → (ℕ → Option ℕ)
    → KernelHost
    → PlaceOrderRequest
    → Admitted ((String × String) × KernelHost)
unfolding prepared
place len price_micros h request = next_ordinal h >>= λ ordinal.
    denied h (prepared price_micros h ordinal request) >>= λ (order, commitment).
    issue_broker_command len h (StrategyCommandV6.place_order order) (place_entry_of h order)
    >>= λ issued.
        ok ((order.command_id, order.provider_client_id), booked issued request order commitment)
