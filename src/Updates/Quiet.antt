-- ===== src/Updates/Quiet.antt =====
-- A comparison that is delivered is not delivered again (kernel_v6/updates.rs): the entry that it
-- leaves, compared with the same view, has no update.
use strategy_core.Common.{
  ◌≤◌, ◌≡◌, refl, sym, ap, ◌∙◌, ◌⊎◌, inl, inr, Bool, true, false, Option, none, some, arith,
  Option-cases, Bool-cases, ltb,
}
use strategy_core.Wire.Orders.{
  BrokerOrderV6, RunnerEntryV6, CommandOutcomeV6, OrderUpdateStatusV6, is_place,
  update_status_eq_refl,
}
use strategy_core.Updates.Records.{seen_status}
use strategy_core.Updates.Compare.{
  View, compare, compare_place, compare_order, compare_missing, compare_cancel, absent, by_command,
  caught_up, outcome,
}
use strategy_core.Updates.Finalize.{handled}
use strategy_core.Updates.Derive.{step_of}

-- A status that was seen of an order is seen again.
seen_status_again :
    (order : BrokerOrderV6) (last : Option OrderUpdateStatusV6)
    → seen_status order (some (seen_status order last)) ≡ seen_status order last
unfolding seen_status
seen_status_again order last = ground arith

-- The entry with its delivery counters reset.
abbrev reset : RunnerEntryV6 → RunnerEntryV6
reset e = record e { delivery_failures = 0; delivery_deferrals = 0 }

caught_up-quiet :
    (e : RunnerEntryV6) (order : BrokerOrderV6)
    → e.filled_quantity_hundredths ≤ order.filled_quantity_hundredths
    → let n = caught_up e order (seen_status order e.last_status) in
      ((compare_order n order).update ≡ none) × ((compare_order (reset n) order).update ≡ none)
unfolding compare_order
caught_up-quiet e order grown = ground (
  arith,
  seen_status_again order e.last_status,
  update_status_eq_refl (seen_status order e.last_status),
)

compare_order-quiet :
    (e n : RunnerEntryV6) (order : BrokerOrderV6)
    → e.filled_quantity_hundredths ≤ order.filled_quantity_hundredths
    → (compare_order e order).next ≡ some n
    → ((compare_order n order).update ≡ none) × ((compare_order (reset n) order).update ≡ none)
compare_order-quiet e n order grown k = elim (Bool-cases (ltb order.revision e.order_revision)) [
  | inl stale ↦ unfold compare_order in ground arith
  | inr newer ↦
      let status = seen_status order e.last_status in
      let new : n ≡ caught_up e order status = unfold compare_order in ground arith in
      rw new (caught_up-quiet e order grown)
]

compare_missing-quiet :
    (v : View) (e n : RunnerEntryV6)
    → (compare_missing v e).next ≡ some n
    → ((compare_missing v n).update ≡ none) × ((compare_missing v (reset n)).update ≡ none)
unfolding compare_missing absent
compare_missing-quiet v e n k = ground arith

compare_cancel-quiet :
    (v : View) (e n : RunnerEntryV6)
    → (compare_cancel v e).next ≡ some n
    → ((compare_cancel v n).update ≡ none) × ((compare_cancel v (reset n)).update ≡ none)
unfolding compare_cancel absent
compare_cancel-quiet v e n k = ground arith

-- A place by the order that the view shows, or by the receipt.
place_shown :
    (v : View) (e : RunnerEntryV6) (order : BrokerOrderV6)
    → by_command v e.command_id ≡ some order
    → compare_place v e ≡ compare_order e order
unfolding compare_place
place_shown v e order shown = rw (shown, compare_place) refl

abbrev is_refusal : Option CommandOutcomeV6 → Bool
is_refusal (some (CommandOutcomeV6.refused c r)) = true
is_refusal _ = false

place_missing :
    (v : View) (e : RunnerEntryV6)
    → by_command v e.command_id ≡ none
    → is_refusal (outcome v e.command_id) ≡ false
    → compare_place v e ≡ compare_missing v e
unfolding compare_place
place_missing v e missing = go (outcome v e.command_id) refl
  where
    go :
        (o : Option CommandOutcomeV6)
        → outcome v e.command_id ≡ o
        → is_refusal o ≡ false
        → compare_place v e ≡ compare_missing v e
    go none k ok = rw (missing, k, compare_place) refl
    go (some CommandOutcomeV6.accepted) k ok = rw (missing, k, compare_place) refl
    go (some (CommandOutcomeV6.refused c r)) k ok = cc

place_refused :
    (v : View) (e n : RunnerEntryV6)
    → by_command v e.command_id ≡ none
    → (compare_place v e).next ≡ some n
    → is_refusal (outcome v e.command_id) ≡ false
unfolding compare_place
place_refused v e n missing kept = go (outcome v e.command_id) refl
  where
    go : (o : Option CommandOutcomeV6) → outcome v e.command_id ≡ o → is_refusal o ≡ false
    go none k = refl
    go (some CommandOutcomeV6.accepted) k = refl
    go (some (CommandOutcomeV6.refused c r)) k =
        let wrong = rw (missing, k, compare_place) at kept in cc

compare_order-same :
    (e n : RunnerEntryV6) (order : BrokerOrderV6)
    → (compare_order e order).next ≡ some n
    → (n.command_id ≡ e.command_id) × (n.kind ≡ e.kind)
unfolding compare_order
compare_order-same e n order k = ground arith

compare_missing-same :
    (v : View) (e n : RunnerEntryV6)
    → (compare_missing v e).next ≡ some n
    → (n.command_id ≡ e.command_id) × (n.kind ≡ e.kind)
unfolding compare_missing absent
compare_missing-same v e n k = ground arith

compare_cancel-same :
    (v : View) (e n : RunnerEntryV6)
    → (compare_cancel v e).next ≡ some n
    → (n.command_id ≡ e.command_id) × (n.kind ≡ e.kind)
unfolding compare_cancel absent
compare_cancel-same v e n k = ground arith

compare_place-quiet :
    (v : View) (e n : RunnerEntryV6)
    → ((order : BrokerOrderV6)
        → by_command v e.command_id ≡ some order
        → e.filled_quantity_hundredths ≤ order.filled_quantity_hundredths)
    → (compare_place v e).next ≡ some n
    → ((compare_place v n).update ≡ none)
      × ((compare_place v (reset n)).update ≡ none)
      × (n.kind ≡ e.kind)
compare_place-quiet v e n grown k = elim (Option-cases (by_command v e.command_id)) [
  | inl missing ↦
      let taken = place_refused v e n missing k in
      let k' = sym (ap (λ c. c.next) (place_missing v e missing taken)) ∙ k in
      let same = compare_missing-same v e n k' in
      let missing' = ap (by_command v) same.0 ∙ missing in
      let taken' = ap (λ id. is_refusal (outcome v id)) same.0 ∙ taken in
      let quiet = compare_missing-quiet v e n k' in
      (
        rw (place_missing v n missing' taken') quiet.0,
        rw (place_missing v (reset n) missing' taken') quiet.1,
        same.1,
      )
  | inr (order, shown) ↦
      let k' = sym (ap (λ c. c.next) (place_shown v e order shown)) ∙ k in
      let same = compare_order-same e n order k' in
      let found = ap (by_command v) same.0 ∙ shown in
      let quiet = compare_order-quiet e n order (grown order shown) k' in
      (
        rw (place_shown v n order found) quiet.0,
        rw (place_shown v (reset n) order found) quiet.1,
        same.1,
      )
]

handled-reset :
    (v : View) (e n : RunnerEntryV6)
    → handled (step_of v e) ≡ some n
    → (m : RunnerEntryV6) × ((compare v e).next ≡ some m) × ((n ≡ m) ⊎ (n ≡ reset m))
handled-reset v e n k = elim (Option-cases (compare v e).next) [
  | inl none_left ↦ absurd (ground arith)
  | inr (m, left) ↦ (m, left, ground arith)
]

compare_next-quiet :
    (v : View) (e m : RunnerEntryV6)
    → ((order : BrokerOrderV6)
        → by_command v e.command_id ≡ some order
        → e.filled_quantity_hundredths ≤ order.filled_quantity_hundredths)
    → (compare v e).next ≡ some m
    → ((compare v m).update ≡ none) × ((compare v (reset m)).update ≡ none)
unfolding compare
compare_next-quiet v e m grown k = elim (Bool-cases (is_place e.kind)) [
  | inl place ↦
      let q = compare_place-quiet v e m grown (rw (place) at k) in
      rw (ap is_place q.2 ∙ place) (q.0, q.1)
  | inr cancel ↦
      let k' = rw (cancel) at k in
      rw (ap is_place (compare_cancel-same v e m k').1 ∙ cancel) (compare_cancel-quiet v e m k')
]

-- The entry that a handled decision leaves has no update when it is compared with the same view
-- again: nothing is reported twice, provided that the order the view shows, if any, has no smaller
-- fill than the entry recorded.
pub compare-quiet :
    (v : View) (e n : RunnerEntryV6)
    → ((order : BrokerOrderV6)
        → by_command v e.command_id ≡ some order
        → e.filled_quantity_hundredths ≤ order.filled_quantity_hundredths)
    → handled (step_of v e) ≡ some n
    → (compare v n).update ≡ none
compare-quiet v e n grown k =
    let (m, left, same) = handled-reset v e n k in
    let quiet = compare_next-quiet v e m grown left in
    elim same [ inl kept ↦ rw (kept) quiet.0 | inr zeroed ↦ rw (zeroed) quiet.1 ]
