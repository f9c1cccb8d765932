-- ===== src/Updates/Derive.antt =====
-- The comparison of a whole runner section, with the adoption of untracked open orders
-- (`derive_from_section` in kernel_v6/updates.rs).
use strategy_core.Common.{
  ℕ, ◌+◌, max, String, Bool, true, false, not, ◌||◌, Option, none, some, List, [], ◌∷◌, ◌++◌, map,
  is_some, count_if, contains, ltb, leb, if◌then◌else◌, Result, ok, err,
}
use strategy_core.Wire.Bounds.{max_runner_section_entries}
use strategy_core.Wire.Orders.{
  BrokerOrderV6, BrokerDetailV6, CommandReceiptV6, RunnerEntryV6, RunnerSectionV6, is_terminal,
}
use strategy_core.Updates.Records.{Note, note, Step, Derived, adopted}
use strategy_core.Updates.Compare.{View, compare}

pub data KernelTransactionError : Type 0 where
  runner_section_full : KernelTransactionError

abbrev pub view : BrokerDetailV6 → Bool → List CommandReceiptV6 → View
view broker complete receipts = record {
  revision = broker.revision;
  complete = complete;
  orders = broker.orders;
  receipts = receipts;
}

abbrev pub step_of : View → RunnerEntryV6 → Step
step_of v entry = record {
  previous = some entry;
  next = (compare v entry).next;
  update = (compare v entry).update;
}

-- The loop over the section's entries: its steps and the notes that it pushes.
abbrev pub compare_all : View → List RunnerEntryV6 → List Step
compare_all v = map (step_of v)

unfoldable pub compare_notes : View → List RunnerEntryV6 → List Note
compare_notes v [] = []
compare_notes v (entry ∷ entries) = (compare v entry).notes ++ compare_notes v entries

-- The command ids of the entries before and after.
abbrev pub ids_of : Option RunnerEntryV6 → List String
ids_of none = []
ids_of (some entry) = entry.command_id ∷ []

unfoldable pub tracked : List Step → List String
tracked [] = []
tracked (s ∷ steps) = ids_of s.previous ++ ids_of s.next ++ tracked steps

-- Entries the section may hold after delivery.
abbrev pub may_hold : Step → Bool
may_hold s = is_some s.next || is_some s.update

abbrev pub held : List Step → ℕ
held = count_if may_hold

abbrev pub adopted_step : BrokerOrderV6 → ℕ → Step
adopted_step order revision = record {
  previous = none;
  next = some (adopted order revision);
  update = none;
}

-- The loop over the view's orders, from `count` held entries: the adopted steps and the notes.
unfoldable pub adopt : Bool → ℕ → List String → ℕ → List BrokerOrderV6 → List Step × List Note
adopt seeded revision known count [] = ([], [])
adopt seeded revision known count (order ∷ orders) =
    elim (is_terminal order.status || contains order.command_id known) [
      | true ↦ adopt seeded revision known count orders
      | false ↦ elim (leb max_runner_section_entries count) [
        | true ↦
            let (steps, notes) = adopt seeded revision known count orders in
            (steps, note "runner_order_not_adopted" order.command_id ∷ notes)
        | false ↦
            let (steps, notes) = adopt seeded revision known (count + 1) orders in
            (
              adopted_step order revision ∷ steps,
              if seeded then note "runner_order_adopted" order.command_id ∷ notes else notes,
            )
      ]
    ]

-- The orders that may be adopted: all of a view newer than any the section has seen.
abbrev pub adoptable : RunnerSectionV6 → View → List BrokerOrderV6
adoptable section v =
    if not section.seeded || ltb section.newest_view_revision v.revision then v.orders else []

unfoldable pub derive_from_section : View → RunnerSectionV6 → Result KernelTransactionError Derived
unfolding compare_notes tracked adopt
derive_from_section v section =
    let steps = compare_all v section.entries in
    let (own, notes) =
      adopt section.seeded v.revision (tracked steps) (held steps) (adoptable section v) in
    if ltb max_runner_section_entries (held steps)
    then err runner_section_full
    else ok (record {
      steps = steps ++ own;
      newest_view_revision = max section.newest_view_revision v.revision;
      notes = compare_notes v section.entries ++ notes;
    })
