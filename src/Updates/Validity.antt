-- ===== src/Updates/Validity.antt =====
-- Each entry that a comparison and a delivery leave is one that the runner section's validator
-- accepts (kernel_v6/updates.rs against `validate_runner_section` in decision_v6.rs).
use strategy_core.Common.{
  ℕ, ◌≤◌, ◌<◌, ◌≡◌, refl, ◌⊎◌, true, false, Option, none, some, List, inl, inr, arith, Option-cases,
  Bool-cases, ok, All, get-All, String,
}
use strategy_core.Wire.Orders.{
  BrokerOrderV6, RunnerEntryV6, OrderUpdateStatusV6, is_place, is_terminal, is_terminal_update,
}
use strategy_core.Wire.Text.{valid_identifier}
use strategy_core.Wire.Runner.{bad_counters, order_fields_valid, shape}
use strategy_core.Wire.Broker.{order_names_valid, quantities_valid, validate_broker_order_v6}
use strategy_core.Updates.Records.{Step, Failure, seen_status}
use strategy_core.Updates.Compare.{
  View, by_command, absent, compare_order, compare_missing, compare_place, compare_cancel, compare,
  caught_up,
}
use strategy_core.Updates.Finalize.{
  Settled, settle, handled, may_retry, attempts_after, deferrals_after,
}
use strategy_core.Wire.Bounds.{max_delivery_attempts, max_delivery_deferrals}

-- The tests that `validate_runner_section` makes of an entry by itself.
pub record EntryIsValid (e : RunnerEntryV6) : Type 0 where
  pub counters : bad_counters e ≡ false
  pub identified : valid_identifier e.command_id ≡ true
  pub in_bounds : order_fields_valid e ≡ true
  pub shaped : shape e ≡ true

pub absent-EntryIsValid :
    (v : View) (e n : RunnerEntryV6) → EntryIsValid e → (absent v e).0 ≡ some n → EntryIsValid n
unfolding absent bad_counters order_fields_valid shape
absent-EntryIsValid v e n h k = ground arith

-- A terminal order is seen as terminal, and an open one as open.
pub seen_status_terminal :
    (order : BrokerOrderV6) (last : Option OrderUpdateStatusV6)
    → ((s : OrderUpdateStatusV6) → last ≡ some s → is_terminal_update s ≡ false)
    → is_terminal_update (seen_status order last) ≡ is_terminal order.status
unfolding seen_status
seen_status_terminal order none h = ground arith
seen_status_terminal order (some s) h = ground (arith, h s refl)

-- The entry after a comparison with its order: the same, or caught up with an open order.
abbrev CaughtUp : RunnerEntryV6 → BrokerOrderV6 → RunnerEntryV6 → Type 0
CaughtUp e order n =
    let status = seen_status order e.last_status in
    (is_terminal_update status ≡ false) × (n ≡ caught_up e order status)

compare_order-next :
    (e n : RunnerEntryV6) (order : BrokerOrderV6)
    → (compare_order e order).next ≡ some n
    → (n ≡ e) ⊎ CaughtUp e order n
unfolding compare_order
compare_order-next e n order k = ground arith

caught_up-EntryIsValid :
    (e : RunnerEntryV6) (order : BrokerOrderV6) (status : OrderUpdateStatusV6)
    → EntryIsValid e
    → is_place e.kind ≡ true
    → valid_identifier order.order_id ≡ true
    → order.filled_quantity_hundredths ≤ e.requested_quantity_hundredths
    → is_terminal_update status ≡ false
    → EntryIsValid (caught_up e order status)
caught_up-EntryIsValid e order status v place named fits open_status = record {
  counters = unfold bad_counters in ground (arith, v.counters);
  identified = v.identified;
  in_bounds = unfold order_fields_valid in ground (arith, v.in_bounds);
  shaped = unfold shape in ground (arith, v.shaped);
}

pub compare_order-EntryIsValid :
    (e n : RunnerEntryV6) (order : BrokerOrderV6)
    → EntryIsValid e
    → is_place e.kind ≡ true
    → valid_identifier order.order_id ≡ true
    → order.filled_quantity_hundredths ≤ e.requested_quantity_hundredths
    → (compare_order e order).next ≡ some n
    → EntryIsValid n
compare_order-EntryIsValid e n order v place named fits k = elim (compare_order-next e n order k) [
  | inl same ↦ rw same v
  | inr (open_status, new) ↦
      rw new (caught_up-EntryIsValid e order _ v place named fits open_status)
]

abbrev recount : RunnerEntryV6 → ℕ → ℕ → RunnerEntryV6
recount e a d = record e { delivery_failures = a; delivery_deferrals = d }

recount-EntryIsValid :
    (e : RunnerEntryV6) (a d : ℕ)
    → EntryIsValid e
    → a < max_delivery_attempts
    → d < max_delivery_deferrals
    → EntryIsValid (recount e a d)
recount-EntryIsValid e a d v ha hd = record {
  counters = unfold bad_counters in ground (arith, v.counters);
  identified = v.identified;
  in_bounds = unfold order_fields_valid in v.in_bounds;
  shaped = unfold shape in ground (arith, v.shaped);
}

-- The entry that delivery leaves of a step: the one after the comparison, or the one before with
-- its failure counted.
pub data Left (s : Step) (n : RunnerEntryV6) : Type 0 where
  kept : s.next ≡ some n → Left s n
  heard : (m : RunnerEntryV6) → s.next ≡ some m → n ≡ recount m 0 0 → Left s n
  again :
      (p : RunnerEntryV6) (a d : ℕ)
      → s.previous ≡ some p
      → a < max_delivery_attempts
      → d < max_delivery_deferrals
      → n ≡ recount p a d
      → Left s n

handled-Left : (s : Step) (n : RunnerEntryV6) → handled s ≡ some n → Left s n
handled-Left s n h = elim (Option-cases s.next) [
  | inl gone ↦ absurd (ground arith)
  | inr (m, there) ↦ elim (Option-cases s.update) [
    | inl quiet ↦ kept (ground arith)
    | inr (u, told) ↦ heard m there (ground arith)
  ]
]

pub settle-Left :
    (s : Step) (f : Option Failure) (r : Settled) (n : RunnerEntryV6)
    → settle s f ≡ some r
    → r.entry ≡ some n
    → Left s n
unfolding settle
settle-Left s none r n h k = handled-Left s n (ground arith)
settle-Left s (some f) r n h k = elim (Option-cases s.previous) [
  | inl unknown ↦ absurd (ground arith)
  | inr (p, there) ↦ elim (Bool-cases (may_retry f p)) [
    | inl retry ↦
        again p (attempts_after f p) (deferrals_after f p) there (ground arith) (ground arith)
          (ground arith)
    | inr over ↦ handled-Left s n (ground arith)
  ]
]

pub Left-EntryIsValid :
    {s : Step} {n : RunnerEntryV6}
    → ((m : RunnerEntryV6) → s.next ≡ some m → EntryIsValid m)
    → ((p : RunnerEntryV6) → s.previous ≡ some p → EntryIsValid p)
    → Left s n
    → EntryIsValid n
Left-EntryIsValid next_valid previous_valid (kept e) = next_valid _ e
Left-EntryIsValid next_valid previous_valid (heard m e new) =
    rw new (recount-EntryIsValid m 0 0 (next_valid m e) (omega arith) (omega arith))
Left-EntryIsValid next_valid previous_valid (again p a d e ha hd new) =
    rw new (recount-EntryIsValid p a d (previous_valid p e) ha hd)

-- What the comparison takes from a view: the order that it shows for an entry is valid, and its
-- quantity is the one that the entry requested.
pub record OrderFits (markets : List String) (v : View) (e : RunnerEntryV6) : Type 0 where
  pub orders_valid : All (λ o. validate_broker_order_v6 o markets ≡ ok tt) v.orders
  pub requested :
      (o : BrokerOrderV6)
      → by_command v e.command_id ≡ some o
      → o.quantity_hundredths ≡ e.requested_quantity_hundredths

pub valid_order_filled :
    (o : BrokerOrderV6) (markets : List String)
    → validate_broker_order_v6 o markets ≡ ok tt
    → o.filled_quantity_hundredths ≤ o.quantity_hundredths
unfolding validate_broker_order_v6 quantities_valid
valid_order_filled o markets h = ground arith

valid_order_id :
    (o : BrokerOrderV6) (markets : List String)
    → validate_broker_order_v6 o markets ≡ ok tt
    → valid_identifier o.order_id ≡ true
unfolding validate_broker_order_v6 order_names_valid
valid_order_id o markets h = ground arith

compare_missing-next :
    (v : View) (e n : RunnerEntryV6) → (compare_missing v e).next ≡ some n → (absent v e).0 ≡ some n
unfolding compare_missing
compare_missing-next v e n h = h

compare_place-EntryIsValid :
    (markets : List String) (v : View) (e n : RunnerEntryV6)
    → EntryIsValid e
    → is_place e.kind ≡ true
    → OrderFits markets v e
    → (compare_place v e).next ≡ some n
    → EntryIsValid n
unfolding compare_place
compare_place-EntryIsValid markets v e n valid place fits h =
    elim (Option-cases (by_command v e.command_id)) [
      | inr (o, found) ↦
          let good = get-All _ _ _ v.orders o fits.orders_valid found in
          compare_order-EntryIsValid e n o valid place (valid_order_id o markets good)
            (omega (arith, valid_order_filled o markets good, fits.requested o found))
            (ground arith)
      | inl unseen ↦ absent-EntryIsValid v e n valid (ground (arith, compare_missing-next v e n))
    ]

compare_cancel-next :
    (v : View) (e n : RunnerEntryV6) → (compare_cancel v e).next ≡ some n → (absent v e).0 ≡ some n
unfolding compare_cancel
compare_cancel-next v e n h = ground arith

-- The entry that a comparison leaves is valid, when the entry before is, the view's orders are, and
-- the order shown for the entry has the quantity that it requested.
pub compare-EntryIsValid :
    (markets : List String) (v : View) (e n : RunnerEntryV6)
    → EntryIsValid e
    → OrderFits markets v e
    → (compare v e).next ≡ some n
    → EntryIsValid n
unfolding compare
compare-EntryIsValid markets v e n valid fits h = elim (Bool-cases (is_place e.kind)) [
  | inl place ↦ compare_place-EntryIsValid markets v e n valid place fits (ground arith)
  | inr cancel ↦ absent-EntryIsValid v e n valid (compare_cancel-next v e n (ground arith))
]
