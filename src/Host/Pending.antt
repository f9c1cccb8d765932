-- ===== src/Host/Pending.antt =====
-- The pending orders that a kernel is shown after a place (`pending_orders` and `place` in
-- native/strategy_core_v3/src/kernel_v6.rs).
use mathlib.Core.List.{append_assoc}
use strategy_core.Common.{
  ℕ, ◌≡◌, refl, sym, ap, ◌∙◌, not, String, Option, none, some, List, [], ◌∷◌, ◌++◌, map, filter, ok,
  >>=-eq-ok, arith,
}
use strategy_core.Common.Int.{pos}
use strategy_core.Wire.Orders.{BrokerOrderV6, BrokerDetailV6, is_terminal}
use strategy_core.Actions.{PlaceOrderRequest}
use strategy_core.Actions.Views.{as_str}
use strategy_core.Host.State.{KernelHost, ProvisionalOrder}
use strategy_core.Host.Admission.{EncodedLen, next_ordinal, issue_broker_command}
use strategy_core.Host.Orders.{
  order_action_v6, contract_side_v6, denied, prepared, place, provisional_of, booked, committed,
}
use strategy_core.Host.Views.{
  Clock, view_status, reported_view, provisional_view, pending_orders, action_text, side_text,
}
use strategy_core.Host.Called.{issued-eq}

map-append : {A B : Type 0} (f : A → B) (xs ys : List A) → map f (xs ++ ys) ≡ map f xs ++ map f ys
map-append f [] ys = refl
map-append f (x ∷ xs) ys = ap (λ zs. f x ∷ zs) (map-append f xs ys)

reported_view-same :
    (clock : Clock) (h h' : KernelHost) (order : BrokerOrderV6)
    → h'.cancellation_requested ≡ h.cancellation_requested
    → reported_view clock h' order ≡ reported_view clock h order
unfolding view_status
reported_view-same clock h h' order marks = rw (marks) refl

map-same :
    (clock : Clock) (h h' : KernelHost) (os : List BrokerOrderV6)
    → h'.cancellation_requested ≡ h.cancellation_requested
    → map (reported_view clock h') os ≡ map (reported_view clock h) os
map-same clock h h' [] marks = refl
map-same clock h h' (o ∷ os) marks =
    cc (reported_view-same clock h h' o marks, map-same clock h h' os marks)

pending_orders-add :
    (clock : Clock) (h h' : KernelHost) (o : ProvisionalOrder)
    → h'.broker ≡ h.broker
    → h'.cancellation_requested ≡ h.cancellation_requested
    → h'.provisional ≡ h.provisional ++ o ∷ []
    → pending_orders clock h' ≡ pending_orders clock h ++ provisional_view o ∷ []
unfolding pending_orders
pending_orders-add clock h h' o broker marks placed =
    let reported =
      map (reported_view clock h)
        (filter (λ order. not (is_terminal order.status)) h.broker.orders) in
    ap
      (λ os.
        map (reported_view clock h')
          (filter (λ (order : BrokerOrderV6). not (is_terminal order.status)) os)
        ++ map provisional_view h'.provisional)
      (ap (λ (b : BrokerDetailV6). b.orders) broker)
    ∙ (ap (λ vs. vs ++ map provisional_view h'.provisional) (map-same clock h h' _ marks)
        ∙ (ap (λ ps. reported ++ map provisional_view ps) placed
            ∙ (ap (λ vs. reported ++ vs) (map-append provisional_view h.provisional (o ∷ []))
                ∙ sym (
                    append_assoc reported (map provisional_view h.provisional)
                      (provisional_view o ∷ [])))))

place-books :
    (len : EncodedLen) (price_micros : ℕ → Option ℕ) (h h' : KernelHost)
    (request : PlaceOrderRequest) (id client : String)
    → place len price_micros h request ≡ ok ((id, client), h')
    → (reserved : ℕ) × (h'.broker ≡ h.broker)
      × (h'.cancellation_requested ≡ h.cancellation_requested)
      × (h'.finances ≡ committed h.finances reserved)
      × (h'.provisional ≡ h.provisional ++ provisional_of request client reserved ∷ [])
unfolding place
place-books len price_micros h h' request id client e =
    let (n, had, next) = >>=-eq-ok (next_ordinal h) _ e in
    let ((order, reserved), made, rest) =
      >>=-eq-ok (denied h (prepared price_micros h n request)) _ next in
    let (h1, out, last) = >>=-eq-ok (issue_broker_command len h _ _) _ rest in
    let same = issued-eq len h h1 _ _ out in
    let named : order.provider_client_id ≡ client = ground arith in
    let ended : h' ≡ booked h1 request order reserved = ground arith in
    (
      reserved,
      ap (λ (k : KernelHost). k.broker) ended ∙ ap (λ (k : KernelHost). k.broker) same,
      ap (λ (k : KernelHost). k.cancellation_requested) ended
          ∙ ap (λ (k : KernelHost). k.cancellation_requested) same,
      ap (λ (k : KernelHost). k.finances) ended
          ∙ ap (λ (k : KernelHost). committed k.finances reserved) same,
      ap (λ (k : KernelHost). k.provisional) ended
          ∙ (ap
                (λ (k : KernelHost).
                  k.provisional ++ provisional_of request order.provider_client_id reserved ∷ [])
                same
              ∙ ap (λ c. h.provisional ++ provisional_of request c reserved ∷ []) named),
    )

-- A place adds one to the pending orders that a kernel is shown, behind all the others, which it
-- leaves as they are: an order without an id, submitted under the client order id of the ticket,
-- with the market, limit and quantity of the request, none of it filled, its reserved
-- cost an amount that the place committed the host's finances by.
pub pending_orders-place :
    (len : EncodedLen) (price_micros : ℕ → Option ℕ) (clock : Clock) (h h' : KernelHost)
    (request : PlaceOrderRequest) (id client : String)
    → place len price_micros h request ≡ ok ((id, client), h')
    → (reserved : ℕ) × (h'.finances ≡ committed h.finances reserved)
      × (pending_orders clock h'
          ≡ pending_orders clock h
            ++ record {
              order_id = "";
              ticker = request.ticker;
              status = "submitted";
              action = action_text (order_action_v6 request.action);
              contract_side = side_text (contract_side_v6 request.contract_side);
              limit_price = request.limit_price;
              requested_quantity = request.quantity;
              filled_quantity = record { hundredths = pos 0 };
              remaining_quantity = request.quantity;
              reserved_cost = reserved;
              client_order_id = some client;
              created_at = none;
              updated_at = none;
            }
              ∷ [])
unfolding as_str
pending_orders-place len price_micros clock h h' request id client e =
    let (reserved, broker, marks, finances, placed) =
      place-books len price_micros h h' request id client e in
    (
      reserved,
      finances,
      pending_orders-add clock h h' (provisional_of request client reserved) broker marks placed,
    )
