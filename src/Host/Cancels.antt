-- ===== src/Host/Cancels.antt =====
-- `cancel` and `cancel_all` of the kernel transaction host
-- (native/strategy_core_v3/src/kernel_v6.rs).
use strategy_core.Common.{
  ℕ, true, false, not, String, Option, none, some, List, [], ◌∷◌, Result, ok, err, ◌>>=◌, find, any,
  str_eq, if◌then◌else◌,
}
use strategy_core.Wire.Orders.{
  OrderActionV6, ContractSideV6, BrokerCommandKindV6, BrokerOrderV6, RunnerEntryV6, is_terminal,
}
use strategy_core.Wire.Commands.{CancelTargetV6, StrategyCommandV6}
use strategy_core.Actions.{CancelTarget}
use strategy_core.Host.State.{KernelError, KernelHost, ProvisionalOrder}
use strategy_core.Host.Admission.{EncodedLen, Admitted, next_ordinal, issue_broker_command}
use strategy_core.Host.Orders.{denied, order_action_v6, contract_side_v6}
use strategy_core.Fees.Schedule.{try_unsigned}

-- A cancel's target and its runner entry, without the command's id.
abbrev cancel_entry :
    KernelHost
    → String
    → Option String
    → Option String
    → String
    → OrderActionV6
    → ContractSideV6
    → ℕ
    → ℕ
    → RunnerEntryV6
cancel_entry h id client order_id market action side requested filled = record {
  command_id = id;
  kind = BrokerCommandKindV6.cancel_order;
  client_order_id = client;
  order_id = order_id;
  market_id = some market;
  action = some action;
  side = some side;
  requested_quantity_hundredths = requested;
  last_status = none;
  filled_quantity_hundredths = filled;
  order_revision = 0;
  issued_broker_revision = h.broker.revision;
  vanished = false;
  vanished_revision = 0;
  absent_views = 0;
  delivery_failures = 0;
  delivery_deferrals = 0;
}

-- `u64::try_from(order.quantity.hundredths()).unwrap_or_default()`
abbrev provisional_quantity : ProvisionalOrder → ℕ
provisional_quantity order = elim (try_unsigned order.quantity.hundredths) [
  | none ↦ 0
  | some quantity ↦ quantity
]

abbrev pub Cancelling : Type 0
Cancelling = CancelTargetV6 × RunnerEntryV6

-- A cancel of an order that the Broker reports.
abbrev cancel_reported : KernelHost → String → BrokerOrderV6 → Cancelling
cancel_reported h id order = (
  CancelTargetV6.order order.order_id order.revision,
  cancel_entry h id (some order.provider_client_id) (some order.order_id) order.market_id
      order.action order.side order.quantity_hundredths order.filled_quantity_hundredths,
)

-- A cancel of an order that this decision placed.
abbrev cancel_provisional : KernelHost → String → ProvisionalOrder → Cancelling
cancel_provisional h id order = (
  CancelTargetV6.same_decision order.client_order_id,
  cancel_entry h id (some order.client_order_id) none order.ticker (order_action_v6 order.action)
      (contract_side_v6 order.side) (provisional_quantity order) 0,
)

abbrev reported_or :
    KernelHost → String → CancelTarget → Option BrokerOrderV6 → Result KernelError Cancelling
reported_or h id target none = err (KernelError.invalid_cancel target)
reported_or h id target (some order) = ok (cancel_reported h id order)

-- The order that a target names: by its order id one of the Broker's, by its client order id one of
-- this decision's, else one of the Broker's.
unfoldable pub find_target : KernelHost → String → CancelTarget → Result KernelError Cancelling
find_target h id (CancelTarget.order_id order_id) =
    reported_or h id (CancelTarget.order_id order_id)
      (find (λ order. str_eq order.order_id order_id) h.broker.orders)
find_target h id (CancelTarget.client_order_id client) =
    elim (find (λ order. str_eq order.client_order_id client) h.provisional) [
      | some order ↦ ok (cancel_provisional h id order)
      | none ↦
          reported_or h id (CancelTarget.client_order_id client)
            (find (λ order. str_eq order.provider_client_id client) h.broker.orders)
    ]

-- `BTreeSet::insert`
abbrev pub insert_text : String → List String → List String
insert_text text texts = if any (λ t. str_eq t text) texts then texts else text ∷ texts

abbrev pub request_cancellation : ProvisionalOrder → ProvisionalOrder
request_cancellation order = record order { cancellation_requested = true }

-- Marks the first provisional order with a client order id.
unfoldable pub mark_client : String → List ProvisionalOrder → List ProvisionalOrder
mark_client client [] = []
mark_client client (order ∷ orders) =
    if str_eq order.client_order_id client
    then request_cancellation order ∷ orders
    else order ∷ mark_client client orders

unfoldable pub mark_all : List ProvisionalOrder → List ProvisionalOrder
mark_all [] = []
mark_all (order ∷ orders) = request_cancellation order ∷ mark_all orders

-- The order ids of the Broker's open orders, added to the marked ones.
unfoldable pub mark_open : List BrokerOrderV6 → List String → List String
mark_open [] marked = marked
mark_open (order ∷ orders) marked =
    mark_open orders
      (if not (is_terminal order.status) then insert_text order.order_id marked else marked)

unfoldable pub mark_target : KernelHost → CancelTargetV6 → KernelHost
unfolding mark_client
mark_target h (CancelTargetV6.same_decision client) = record h {
  provisional = mark_client client h.provisional;
}
mark_target h (CancelTargetV6.order order_id revision) = record h {
  cancellation_requested = insert_text order_id h.cancellation_requested;
}

-- `KernelHost::cancel`: the command's id and the host.
unfoldable pub cancel : EncodedLen → KernelHost → CancelTarget → Admitted (String × KernelHost)
unfolding find_target mark_target
cancel len h target = next_ordinal h >>= λ ordinal.
    let id = h.context.ids.command_id ordinal in
    denied h (find_target h id target) >>= λ (found, entry).
    issue_broker_command len h (StrategyCommandV6.cancel_order id found) entry >>= λ issued.
    ok (id, mark_target issued found)

abbrev pub cancel_all_entry : KernelHost → String → RunnerEntryV6
cancel_all_entry h id = record {
  command_id = id;
  kind = BrokerCommandKindV6.cancel_all_orders;
  client_order_id = none;
  order_id = none;
  market_id = none;
  action = none;
  side = none;
  requested_quantity_hundredths = 0;
  last_status = none;
  filled_quantity_hundredths = 0;
  order_revision = 0;
  issued_broker_revision = h.broker.revision;
  vanished = false;
  vanished_revision = 0;
  absent_views = 0;
  delivery_failures = 0;
  delivery_deferrals = 0;
}

-- The marks of a cancel-all: the Broker's open orders and this decision's.
unfoldable pub mark_everything : KernelHost → KernelHost → KernelHost
unfolding mark_open mark_all
mark_everything h issued = record issued {
  cancellation_requested = mark_open h.broker.orders issued.cancellation_requested;
  provisional = mark_all issued.provisional;
}

-- A cancel-all of a complete view.
unfoldable pub cancel_everything : EncodedLen → KernelHost → Admitted (String × KernelHost)
unfolding mark_everything
cancel_everything len h = next_ordinal h >>= λ ordinal.
    let id = h.context.ids.command_id ordinal in
    issue_broker_command len h (StrategyCommandV6.cancel_all_orders id) (cancel_all_entry h id)
    >>= λ issued. ok (id, mark_everything h issued)

-- `KernelHost::cancel_all`
unfoldable pub cancel_all : EncodedLen → KernelHost → Admitted (String × KernelHost)
unfolding cancel_everything
cancel_all len h =
    if not h.context.orders_complete
    then err (KernelError.truncated_orders, h)
    else cancel_everything len h
