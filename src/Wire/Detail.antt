-- ===== src/Wire/Detail.antt =====
-- The checks of the Broker's detail and of the command receipts (`validate_broker` and
-- `validate_receipts` in native/strategy_core_v3/src/decision_v6.rs). Text order is that of the
-- code points, which is that of the bytes of UTF-8.
use strategy_core.Common.{
  ℕ, ◌+◌, Bool, true, false, not, ◌&&◌, ◌||◌, String, none, some, List, [], ◌∷◌, map, length, any,
  contains, ltb, ◌==◌, str_eq, ok, err, ◌>>◌, fail_if,
}
use strategy_core.Wire.Bounds.{
  i64_max, max_broker_positions, max_broker_orders, max_command_receipts, max_reason_bytes,
}
use strategy_core.Wire.Orders.{
  ContractSideV6, BrokerOrderV6, BrokerPositionV6, BrokerDetailV6, CommandReceiptV6,
  CommandOutcomeV6, is_place,
}
use strategy_core.Wire.Text.{
  invalid_contract, bound_exceeded, non_canonical_order, Checked, codes, unique, valid_identifier,
  valid_text,
}
use strategy_core.Wire.Broker.{validate_broker_order_v6, maximum_quantity_value}

abbrev pub codes_ltb : List ℕ → List ℕ → Bool
codes_ltb [] [] = false
codes_ltb [] (d ∷ ds) = true
codes_ltb (c ∷ cs) [] = false
codes_ltb (c ∷ cs) (d ∷ ds) = ltb c d || (c == d && codes_ltb cs ds)

abbrev pub str_ltb : String → String → Bool
str_ltb a b = codes_ltb (codes a) (codes b)

abbrev side_ltb : ContractSideV6 → ContractSideV6 → Bool
side_ltb ContractSideV6.yes_side ContractSideV6.no_side = true
side_ltb _ _ = false

-- The order of `(market_id, side)`.
abbrev pub position_ltb : BrokerPositionV6 → BrokerPositionV6 → Bool
position_ltb a b =
    str_ltb a.market_id b.market_id || (str_eq a.market_id b.market_id && side_ltb a.side b.side)

-- The scan of `strictly_sorted` after a value.
unfoldable pub sorted_from {ℓ} : {A : Type ℓ} → (A → A → Bool) → A → List A → Bool
sorted_from less x [] = true
sorted_from less x (y ∷ ys) = less x y && sorted_from less y ys

unfoldable pub strictly_sorted {ℓ} : {A : Type ℓ} → (A → A → Bool) → List A → Bool
unfolding sorted_from
strictly_sorted less [] = true
strictly_sorted less (x ∷ xs) = sorted_from less x xs

-- What the checks read of a context besides the Broker's detail.
pub record OwnerView : Type 0 where
  pub owner_revision : ℕ
  pub fence_revision : ℕ
  pub locally_reserved_cash : ℕ
  pub current_commitment : ℕ
  pub market_ids : List String

abbrev bad_position : List String → BrokerPositionV6 → Bool
bad_position market_ids position =
    position.quantity_hundredths == 0
    || ltb i64_max position.quantity_hundredths
    || ltb (maximum_quantity_value position.quantity_hundredths) position.cost_basis_micros
    || not (contains position.market_id market_ids)

abbrev pub is_err : Checked → Bool
is_err (ok done) = false
is_err (err e) = true

abbrev pub reserved_cash : List BrokerOrderV6 → ℕ
reserved_cash [] = 0
reserved_cash (o ∷ os) = o.reserved_principal_micros + o.reserved_fee_micros + reserved_cash os

abbrev pub position_commitment : List BrokerPositionV6 → ℕ
position_commitment [] = 0
position_commitment (p ∷ ps) = p.cost_basis_micros + p.fees_micros + position_commitment ps

-- The provider's ids of the orders that have one.
abbrev pub provider_ids : List BrokerOrderV6 → List String
provider_ids [] = []
provider_ids (o ∷ os) =
    let rest = provider_ids os in elim o.provider_order_id [ none ↦ rest | some id ↦ id ∷ rest ]

unfoldable pub validate_broker : OwnerView → BrokerDetailV6 → Checked
unfolding strictly_sorted
validate_broker owner broker = do
  fail_if
      (not (broker.revision == owner.owner_revision)
        || not (broker.revision == owner.fence_revision))
      invalid_contract
  fail_if
      (not (strictly_sorted position_ltb broker.positions)
        || not (strictly_sorted str_ltb (map (λ (o : BrokerOrderV6). o.order_id) broker.orders)))
      non_canonical_order
  fail_if
      (ltb max_broker_positions (length broker.positions)
        || ltb max_broker_orders (length broker.orders))
      invalid_contract
  fail_if
      (any (bad_position owner.market_ids) broker.positions
        || any (λ o. is_err (validate_broker_order_v6 o owner.market_ids)) broker.orders)
      invalid_contract
  fail_if
      (not (reserved_cash broker.orders == broker.reserved_cash_micros)
        || ltb owner.locally_reserved_cash (reserved_cash broker.orders)
        || not (
            position_commitment broker.positions + reserved_cash broker.orders
            == owner.current_commitment))
      invalid_contract
  unique (map (λ (o : BrokerOrderV6). o.command_id) broker.orders)
  unique (map (λ (o : BrokerOrderV6). o.intent_id) broker.orders)
  unique (map (λ (o : BrokerOrderV6). o.provider_client_id) broker.orders)
  unique (provider_ids broker.orders)

-- The refusal's texts.
abbrev bad_outcome : CommandOutcomeV6 → Bool
bad_outcome CommandOutcomeV6.accepted = false
bad_outcome (CommandOutcomeV6.refused code reason) =
    not (valid_identifier code) || not (valid_text reason max_reason_bytes)

abbrev is_accepted : CommandOutcomeV6 → Bool
is_accepted CommandOutcomeV6.accepted = true
is_accepted (CommandOutcomeV6.refused code reason) = false

abbrev bad_receipt : List String → CommandReceiptV6 → Bool
bad_receipt order_commands receipt =
    bad_outcome receipt.outcome
    || not (valid_identifier receipt.command_id)
    || contains receipt.command_id order_commands
    || (is_place receipt.kind && is_accepted receipt.outcome)

unfoldable pub validate_receipts : List CommandReceiptV6 → BrokerDetailV6 → Checked
unfolding strictly_sorted
validate_receipts receipts broker = do
  fail_if (ltb max_command_receipts (length receipts)) bound_exceeded
  fail_if (not (strictly_sorted str_ltb (map (λ (r : CommandReceiptV6). r.command_id) receipts)))
      non_canonical_order
  fail_if (any (bad_receipt (map (λ (o : BrokerOrderV6). o.command_id) broker.orders)) receipts)
      invalid_contract
