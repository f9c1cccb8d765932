-- ===== src/Host/Shown.antt =====
-- What a kernel is shown of its orders after its own calls
-- (native/strategy_core_v3/src/kernel_v6.rs).
use strategy_core.Common.{
  ℕ, ◌≡◌, refl, ap, ◌∙◌, subst, false, String, Option, none, some, List, [], ◌∷◌, ◌++◌, find, any,
  str_eq, eq_iff, ok, >>=-eq-ok, arith,
}
use strategy_core.Common.Int.{pos}
use strategy_core.Wire.Orders.{RunnerEntryV6}
use strategy_core.Wire.Commands.{CancelTargetV6}
use strategy_core.Actions.{PlaceOrderRequest, CancelTarget}
use strategy_core.Actions.Views.{BrokerOrderStatus, as_str}
use strategy_core.Host.State.{KernelHost, ProvisionalOrder}
use strategy_core.Host.Admission.{EncodedLen, next_ordinal, issue_broker_command}
use strategy_core.Host.Orders.{denied, prepared, place, provisional_of, client_in_use}
use strategy_core.Host.Cancels.{find_target, mark_client, mark_target, request_cancellation, cancel}
use strategy_core.Host.Views.{Clock, placed_view, status_of, order_status}
use strategy_core.Host.Effects.{prepared-Prepared, denied-ok}
use strategy_core.Host.Called.{issued-eq}

find-append :
    (os : List ProvisionalOrder) (o : ProvisionalOrder)
    → any (λ p. str_eq p.client_order_id o.client_order_id) os ≡ false
    → find (λ p. str_eq p.client_order_id o.client_order_id) (os ++ o ∷ []) ≡ some o
find-append [] o h = ground (arith, eq_iff o.client_order_id o.client_order_id)
find-append (p ∷ os) o h = ground (arith, find-append os o)

order_status-last :
    (clock : Clock) (h h' : KernelHost) (o : ProvisionalOrder)
    → h'.provisional ≡ h.provisional ++ o ∷ []
    → any (λ p. str_eq p.client_order_id o.client_order_id) h.provisional ≡ false
    → order_status clock h' o.client_order_id ≡ some (placed_view o)
unfolding order_status
order_status-last clock h h' o same fresh = ap (status_of clock h' o.client_order_id) (
    ap (find (λ p. str_eq p.client_order_id o.client_order_id)) same
    ∙ find-append h.provisional o fresh)

place-booked :
    (len : EncodedLen) (price_micros : ℕ → Option ℕ) (h h' : KernelHost)
    (request : PlaceOrderRequest) (id client : String)
    → place len price_micros h request ≡ ok ((id, client), h')
    → (commitment : ℕ) × (h'.provisional
        ≡ h.provisional ++ provisional_of request client commitment ∷ [])
      × (any (λ p. str_eq p.client_order_id client) h.provisional ≡ false)
unfolding place client_in_use
place-booked len price_micros h h' request id client e =
    let (n, had, next) = >>=-eq-ok (next_ordinal h) _ e in
    let ((order, commitment), made, rest) =
      >>=-eq-ok (denied h (prepared price_micros h n request)) _ next in
    let (h1, out, last) = >>=-eq-ok (issue_broker_command len h _ _) _ rest in
    let p = prepared-Prepared price_micros h n request order commitment (denied-ok h _ _ made) in
    let same = ap (λ (k : KernelHost). k.provisional) (issued-eq len h h1 _ _ out) in
    let named : order.provider_client_id ≡ client = ground arith in
    (
      commitment,
      ground arith,
      subst (λ c. any (λ p. str_eq p.client_order_id c) h.provisional ≡ false) named
          (ground (arith, p.fresh)),
    )

-- A placed order is shown at once under the client order id of its ticket: submitted, with its whole
-- quantity remaining.
pub order_status-place :
    (len : EncodedLen) (price_micros : ℕ → Option ℕ) (clock : Clock) (h h' : KernelHost)
    (request : PlaceOrderRequest) (id client : String)
    → place len price_micros h request ≡ ok ((id, client), h')
    → order_status clock h' client
      ≡ some (record {
        order_id = "";
        client_order_id = client;
        status = BrokerOrderStatus.submitted;
        requested_quantity = request.quantity;
        filled_quantity = record { hundredths = pos 0 };
        remaining_quantity = request.quantity;
        reason = "submitted";
        updated_at = none;
      })
unfolding as_str
order_status-place len price_micros clock h h' request id client e =
    let (commitment, same, fresh) = place-booked len price_micros h h' request id client e in
    order_status-last clock h h' (provisional_of request client commitment) same fresh

find-mark_client :
    (client : String) (os : List ProvisionalOrder) (o : ProvisionalOrder)
    → find (λ p. str_eq p.client_order_id client) os ≡ some o
    → find (λ p. str_eq p.client_order_id client) (mark_client client os)
      ≡ some (request_cancellation o)
unfolding mark_client
find-mark_client client [] o h = cc
find-mark_client client (p ∷ os) o h = ground (arith, find-mark_client client os o)

find-named :
    (client : String) (os : List ProvisionalOrder) (o : ProvisionalOrder)
    → find (λ p. str_eq p.client_order_id client) os ≡ some o
    → o.client_order_id ≡ client
find-named client [] o h = cc
find-named client (p ∷ os) o h =
    ground (arith, find-named client os o, eq_iff p.client_order_id client)

found-client :
    (h : KernelHost) (id client : String) (o : ProvisionalOrder) (found : CancelTargetV6)
    (e : RunnerEntryV6)
    → find (λ p. str_eq p.client_order_id client) h.provisional ≡ some o
    → find_target h id (CancelTarget.client_order_id client) ≡ ok (found, e)
    → found ≡ CancelTargetV6.same_decision client
unfolding find_target
found-client h id client o found e there k = ground (arith, find-named client h.provisional o there)

marked :
    (h : KernelHost) (found : CancelTargetV6) (client : String)
    → found ≡ CancelTargetV6.same_decision client
    → (mark_target h found).provisional ≡ mark_client client h.provisional
unfolding mark_target
marked h found client same = ap (λ t. (mark_target h t).provisional) same

cancel-marked :
    (len : EncodedLen) (h h' : KernelHost) (client id : String) (o : ProvisionalOrder)
    → find (λ p. str_eq p.client_order_id client) h.provisional ≡ some o
    → cancel len h (CancelTarget.client_order_id client) ≡ ok (id, h')
    → h'.provisional ≡ mark_client client h.provisional
unfolding cancel
cancel-marked len h h' client id o there e =
    let (n, had, next) = >>=-eq-ok (next_ordinal h) _ e in
    let ((found, entry), made, rest) =
      >>=-eq-ok
        (denied h
          (find_target h (h.context.ids.command_id n) (CancelTarget.client_order_id client)))
        _ next in
    let (h1, out, last) = >>=-eq-ok (issue_broker_command len h _ _) _ rest in
    let same = ap (λ (k : KernelHost). k.provisional) (issued-eq len h h1 _ _ out) in
    let ended : h' ≡ mark_target h1 found = ground arith in
    ap (λ (k : KernelHost). k.provisional) ended
    ∙ (marked h1 found client (found-client h _ client o found entry there (denied-ok h _ _ made))
        ∙ ap (mark_client client) same)

-- An order placed earlier in the decision is shown, after a cancel of its client order id, as one
-- whose cancellation is requested, its quantities unchanged.
pub order_status-cancel :
    (len : EncodedLen) (clock : Clock) (h h' : KernelHost) (client id : String)
    (o : ProvisionalOrder)
    → find (λ p. str_eq p.client_order_id client) h.provisional ≡ some o
    → cancel len h (CancelTarget.client_order_id client) ≡ ok (id, h')
    → order_status clock h' client
      ≡ some (record {
        order_id = "";
        client_order_id = client;
        status = BrokerOrderStatus.cancellation_requested;
        requested_quantity = o.quantity;
        filled_quantity = record { hundredths = pos 0 };
        remaining_quantity = o.quantity;
        reason = "cancellation_requested";
        updated_at = none;
      })
unfolding order_status as_str
order_status-cancel len clock h h' client id o there e =
    ap (status_of clock h' client) (
      ap (find (λ p. str_eq p.client_order_id client)) (cancel-marked len h h' client id o there e)
      ∙ find-mark_client client h.provisional o there)
    ∙ rw (find-named client h.provisional o there) refl
