-- ===== src/Updates/Reports.antt =====
-- What one comparison of a place reports of its fill (kernel_v6/updates.rs): the update and the entry
-- after it carry what the view shows.
use strategy_core.Common.{
  ℕ, ◌+◌, max, ◌≡◌, refl, true, Option, none, some, inl, inr, arith, ltb, if◌then◌else◌,
  Option-cases,
}
use strategy_core.Wire.Orders.{
  BrokerOrderV6, RunnerEntryV6, OrderUpdateRecordV6, CommandOutcomeV6, is_place,
}
use strategy_core.Updates.Records.{order_record, command_record}
use strategy_core.Updates.Compare.{
  View, Compared, by_command, outcome, absent, compare_order, compare_missing, compare_place,
  compare, refused,
}

abbrev pub filled : RunnerEntryV6 → ℕ
filled e = e.filled_quantity_hundredths

-- The fill of an entry's order that a view shows: an older record shows nothing new.
abbrev pub shown : RunnerEntryV6 → Option BrokerOrderV6 → ℕ
shown e none = filled e
shown e (some order) =
    if ltb order.revision e.order_revision
    then filled e
    else max order.filled_quantity_hundredths (filled e)

-- The update of `e` and the entry after it carry the fill up to `seen`.
pub record Carries (e : RunnerEntryV6) (seen : ℕ) (next : Option RunnerEntryV6)
    (update : Option OrderUpdateRecordV6) : Type 0 where
  pub told :
      (u : OrderUpdateRecordV6)
      → update ≡ some u
      → filled e + u.newly_filled_quantity_hundredths ≡ seen
  pub quiet : update ≡ none → seen ≡ filled e
  pub recorded : (n : RunnerEntryV6) → next ≡ some n → (filled n ≡ seen) × (n.kind ≡ e.kind)

abbrev pub Reports : RunnerEntryV6 → ℕ → Compared → Type 0
Reports e seen c = Carries e seen c.next c.update

absent-recorded :
    (v : View) (e n : RunnerEntryV6)
    → (absent v e).0 ≡ some n
    → (filled n ≡ filled e) × (n.kind ≡ e.kind)
unfolding absent
absent-recorded v e n h = ground arith

compare_order-Reports :
    (e : RunnerEntryV6) (order : BrokerOrderV6)
    → Reports e (shown e (some order)) (compare_order e order)
unfolding compare_order order_record
compare_order-Reports e order = record {
  told = λ u h. ground arith;
  quiet = λ h. ground arith;
  recorded = λ n h. ground arith;
}

compare_missing-Reports :
    (v : View) (e : RunnerEntryV6) → Reports e (filled e) (compare_missing v e)
unfolding compare_missing command_record
compare_missing-Reports v e = record {
  told = λ u h. ground arith;
  quiet = λ h. refl;
  recorded = λ n h. ground (arith, absent-recorded v e n);
}

compare_place-Reports :
    (v : View) (e : RunnerEntryV6)
    → Reports e (shown e (by_command v e.command_id)) (compare_place v e)
unfolding compare_place command_record
compare_place-Reports v e = elim (Option-cases (by_command v e.command_id)) [
  | inr (order, found) ↦ rw (found, compare_place) (compare_order-Reports e order)
  | inl unseen ↦ rw (unseen, compare_place) (unseen_place (outcome v e.command_id))
]
  where
    unseen_place :
        (o : Option CommandOutcomeV6)
        → Reports e (filled e) (elim o [
          | some (CommandOutcomeV6.refused code reason) ↦ refused e none code reason
          | some CommandOutcomeV6.accepted ↦ compare_missing v e
          | none ↦ compare_missing v e
        ])
    unseen_place (some (CommandOutcomeV6.refused code reason)) = record {
      told = λ u h. ground arith;
      quiet = λ h. cc;
      recorded = λ n h. cc;
    }
    unseen_place (some CommandOutcomeV6.accepted) = compare_missing-Reports v e
    unseen_place none = compare_missing-Reports v e

pub compare-Reports :
    (v : View) (e : RunnerEntryV6)
    → is_place e.kind ≡ true
    → Reports e (shown e (by_command v e.command_id)) (compare v e)
unfolding compare
compare-Reports v e place = rw (place, compare) (compare_place-Reports v e)
