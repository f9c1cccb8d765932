-- ===== src/Updates/Lookup.antt =====
-- The maps of the comparison over a validated Broker detail (`validate_broker` in
-- native/strategy_core_v3/src/decision_v6.rs, `derive_from_section` in kernel_v6/updates.rs).
use strategy_core.Common.{
  ◌≡◌, refl, sym, ap, inl, inr, Bool, true, false, String, none, some, List, [], ◌∷◌, map, get,
  contains, Elem, All, any, arith, Bool-cases, str_eq, eq_iff, ok, subst,
}
use strategy_core.Wire.Orders.{BrokerOrderV6, BrokerDetailV6, CommandReceiptV6}
use strategy_core.Wire.Text.{unique, unique_from}
use strategy_core.Wire.Broker.{validate_broker_order_v6}
use strategy_core.Wire.Detail.{OwnerView, validate_broker, is_err}
use strategy_core.Updates.Compare.{by_command, by_client}
use strategy_core.Updates.Derive.{view}

pub unique_from-head :
    (seen : List String) (k : String) (ks : List String)
    → unique_from seen (k ∷ ks) ≡ ok tt
    → (contains k seen ≡ false) × (unique_from (k ∷ seen) ks ≡ ok tt)
unfolding unique_from
unique_from-head seen k ks u = elim (Bool-cases (contains k seen)) [
  | inl old ↦ absurd (cc (rw (old, unique_from) at u))
  | inr new ↦ (new, rw (new, unique_from) at u)
]

module _ {A : Type 0} (key : A → String) where
  -- A key that was seen is no key of a list that `unique` lets pass.
  get-seen :
      (seen : List String) (xs : List A) (k : String)
      → unique_from seen (map key xs) ≡ ok tt
      → contains k seen ≡ true
      → get key k xs ≡ none
  get-seen seen [] k u h = refl
  get-seen seen (x ∷ xs) k u h =
      let (new, later) = unique_from-head seen (key x) (map key xs) u in
      let rest = get-seen (key x ∷ seen) xs k later (ground arith) in
      elim (Bool-cases (str_eq (key x) k)) [
        | inl hit ↦ let same = ap (λ t. contains t seen) ((eq_iff (key x) k).0 hit) in cc
        | inr miss ↦ ground (arith, rest)
      ]

  get-unique_from :
      (seen : List String) (xs : List A) (x : A)
      → unique_from seen (map key xs) ≡ ok tt
      → Elem x xs
      → get key (key x) xs ≡ some x
  get-unique_from seen [] x u member = elim member [ ]
  get-unique_from seen (y ∷ ys) x u member =
      let (new, later) = unique_from-head seen (key y) (map key ys) u in
      let self = eq_iff (key y) (key y) in
      elim member [
        | inl here ↦
            let unseen = get-seen (key y ∷ seen) ys (key y) later (ground (arith, self)) in
            let found : get key (key y) (y ∷ ys) ≡ some y = ground (arith, unseen, self) in
            subst (λ z. get key (key z) (y ∷ ys) ≡ some z) (sym here) found
        | inr behind ↦ ground (arith, get-unique_from (key y ∷ seen) ys x later behind)
      ]

-- What the checks of a Broker detail give of its orders.
record Checks (owner : OwnerView) (broker : BrokerDetailV6) : Type 0 where
  commands : unique (map (λ (o : BrokerOrderV6). o.command_id) broker.orders) ≡ ok tt
  clients : unique (map (λ (o : BrokerOrderV6). o.provider_client_id) broker.orders) ≡ ok tt
  orders : any (λ o. is_err (validate_broker_order_v6 o owner.market_ids)) broker.orders ≡ false

validate_broker-Checks :
    (owner : OwnerView) (broker : BrokerDetailV6)
    → validate_broker owner broker ≡ ok tt
    → Checks owner broker
unfolding validate_broker
validate_broker-Checks owner broker h = record {
  commands = ground arith;
  clients = ground arith;
  orders = ground arith;
}

orders-All :
    (markets : List String) (os : List BrokerOrderV6)
    → any (λ o. is_err (validate_broker_order_v6 o markets)) os ≡ false
    → All (λ o. validate_broker_order_v6 o markets ≡ ok tt) os
orders-All markets [] h = tt
orders-All markets (o ∷ os) h = (ground arith, orders-All markets os (ground arith))

-- Over a Broker detail that passes its checks the comparison loses no order: each is found under
-- its command id and under its client id, and each is valid.
pub validate_broker-by_command :
    (owner : OwnerView) (broker : BrokerDetailV6) (complete : Bool)
    (receipts : List CommandReceiptV6)
    → validate_broker owner broker ≡ ok tt
    → All (λ o. validate_broker_order_v6 o owner.market_ids ≡ ok tt) broker.orders
      × ((o : BrokerOrderV6)
          → Elem o broker.orders
          → (by_command (view broker complete receipts) o.command_id ≡ some o)
            × (by_client (view broker complete receipts) o.provider_client_id ≡ some o))
unfolding unique
validate_broker-by_command owner broker complete receipts h =
    let c = validate_broker-Checks owner broker h in
    (
      orders-All owner.market_ids broker.orders c.orders,
      λ o member. (
        get-unique_from (λ (x : BrokerOrderV6). x.command_id) [] broker.orders o c.commands member,
        get-unique_from (λ (x : BrokerOrderV6). x.provider_client_id) [] broker.orders o c.clients
            member,
      ),
    )
