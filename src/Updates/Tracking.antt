-- ===== src/Updates/Tracking.antt =====
-- Every open order of a fresh view is tracked (the adoption in `derive_from_section`,
-- kernel_v6/updates.rs).
use strategy_core.Common.{
  ℕ, ◌+◌, ◌≤◌, ◌≡◌, refl, sym, ap, ◌∙◌, inl, inr, Bool, true, false, not, ◌||◌, String, List, [],
  ◌∷◌, ◌++◌, length, contains, Elem, arith, Bool-cases, leb, ltb, eq_iff, ok,
}
use strategy_core.Wire.Bounds.{max_runner_section_entries}
use strategy_core.Wire.Orders.{BrokerOrderV6, RunnerSectionV6, is_terminal}
use strategy_core.Updates.Records.{Step, Derived, adopted}
use mathlib.Core.List.{append_assoc}
use strategy_core.Common.{All, str_eq, some}
use strategy_core.Wire.Orders.{RunnerEntryV6, is_place, is_terminal_update}
use strategy_core.Wire.Runner.{shape}
use strategy_core.Updates.Records.{seen_status}
use strategy_core.Updates.Validity.{EntryIsValid, seen_status_terminal}
use strategy_core.Updates.Compare.{
  View, by_command, compare, compare_place, compare_order, caught_up,
}
use strategy_core.Updates.Derive.{
  tracked, ids_of, held, adopt, adoptable, compare_all, derive_from_section,
}
use strategy_core.Updates.Preserves.{derive-eq-ok}
use strategy_core.Updates.Acknowledged.{contains-append}

-- The loop leaves no open order out while there is room for all.
adopt-tracked :
    (seeded : Bool) (revision : ℕ) (known : List String) (count : ℕ) (os : List BrokerOrderV6)
    (o : BrokerOrderV6)
    → Elem o os
    → is_terminal o.status ≡ false
    → count + length os ≤ max_runner_section_entries
    → (contains o.command_id known
        || contains o.command_id (tracked (adopt seeded revision known count os).0))
      ≡ true
unfolding adopt tracked adopted
adopt-tracked seeded revision known count [] o member open_order room = elim member [ ]
adopt-tracked seeded revision known count (q ∷ os) o member open_order room =
    elim (Bool-cases (is_terminal q.status || contains q.command_id known)) [
      | inl skipped ↦
          rw (skipped, adopt)
            (elim member [
              | inl here ↦ ground (
                arith,
                ap (λ (x : BrokerOrderV6). is_terminal x.status) here,
                ap (λ (x : BrokerOrderV6). contains x.command_id known) here,
              )
              | inr behind ↦
                  adopt-tracked seeded revision known count os o behind open_order (omega arith)
            ])
      | inr untracked ↦
          let space : leb max_runner_section_entries count ≡ false = ground arith in
          rw (untracked, space, adopt)
            (elim member [
              | inl here ↦
                  let same = ap (λ (x : BrokerOrderV6). x.command_id) (sym here) in
                  ground (arith, (eq_iff q.command_id o.command_id).1 same)
              | inr behind ↦ ground (
                arith,
                adopt-tracked seeded revision known (count + 1) os o behind open_order
                    (omega arith),
              )
            ])
    ]

-- The command ids of the entries that the steps leave.
abbrev pub left : List Step → List String
left [] = []
left (s ∷ steps) = ids_of s.next ++ left steps

left-append : (xs ys : List Step) → left (xs ++ ys) ≡ left xs ++ left ys
left-append [] ys = refl
left-append (s ∷ xs) ys =
    ap (λ ids. ids_of s.next ++ ids) (left-append xs ys)
    ∙ sym (append_assoc (ids_of s.next) (left xs) (left ys))

-- The entry of an open order that the view shows stays, under the same command id.
compare-kept :
    (v : View) (e : RunnerEntryV6) (o : BrokerOrderV6)
    → EntryIsValid e
    → is_place e.kind ≡ true
    → by_command v e.command_id ≡ some o
    → is_terminal o.status ≡ false
    → (n : RunnerEntryV6) × ((compare v e).next ≡ some n) × (n.command_id ≡ e.command_id)
unfolding compare compare_place compare_order shape
compare-kept v e o valid place found open_order =
    let running : is_terminal_update (seen_status o e.last_status) ≡ false =
      seen_status_terminal o e.last_status (λ s h. ground (arith, valid.shaped)) ∙ open_order in
    elim (Bool-cases (ltb o.revision e.order_revision)) [
      | inl stale ↦ (e, rw (place, found, stale, compare_place, compare_order) refl, refl)
      | inr newer ↦ (
        caught_up e o (seen_status o e.last_status),
        rw (place, found, newer, running, compare_place, compare_order) refl,
        refl,
      )
    ]

-- An entry of an order's command is a place of it.
abbrev pub Places : String → List RunnerEntryV6 → Type 0
Places id es = All (λ (e : RunnerEntryV6). e.command_id ≡ id → is_place e.kind ≡ true) es

compare_all-left :
    (v : View) (o : BrokerOrderV6) (es : List RunnerEntryV6)
    → All EntryIsValid es
    → Places o.command_id es
    → by_command v o.command_id ≡ some o
    → is_terminal o.status ≡ false
    → contains o.command_id (tracked (compare_all v es)) ≡ true
    → contains o.command_id (left (compare_all v es)) ≡ true
unfolding tracked
compare_all-left v o [] valid places found open_order h = cc
compare_all-left v o (e ∷ es) valid places found open_order h =
    let id = o.command_id in
    let now = ids_of (compare v e).next in
    let split = contains-append id now (left (compare_all v es)) in
    elim (Bool-cases (str_eq e.command_id id)) [
      | inl hit ↦
          let same = (eq_iff e.command_id id).0 hit in
          let (n, next, kept) =
            compare-kept v e o valid.0 (places.0 same) (ap (by_command v) same ∙ found)
              open_order in
          let here : contains id now ≡ true =
            rw next (ground (arith, (eq_iff n.command_id id).1 (kept ∙ same))) in
          split ∙ ground (arith, here)
      | inr miss ↦ elim (Bool-cases (contains id now)) [
        | inl here ↦ split ∙ ground (arith, here)
        | inr elsewhere ↦
            let later = contains-append id now (tracked (compare_all v es)) in
            split
            ∙ ground (
              arith,
              compare_all-left v o es valid.1 places.1 found open_order
                  (ground (arith, later, elsewhere, miss)),
            )
      ]
    ]

-- Adopted orders have no entry before.
adopt-left :
    (seeded : Bool) (revision : ℕ) (known : List String) (count : ℕ) (os : List BrokerOrderV6)
    → left (adopt seeded revision known count os).0
      ≡ tracked (adopt seeded revision known count os).0
unfolding adopt tracked
adopt-left seeded revision known count [] = refl
adopt-left seeded revision known count (o ∷ os) =
    elim (Bool-cases (is_terminal o.status || contains o.command_id known)) [
      | inl skipped ↦ rw (skipped, adopt) (adopt-left seeded revision known count os)
      | inr untracked ↦ elim (Bool-cases (leb max_runner_section_entries count)) [
        | inl full ↦ rw (untracked, full, adopt) (adopt-left seeded revision known count os)
        | inr room ↦
            rw (untracked, room, adopt)
              (ap (λ ids. ids_of (some (adopted o revision)) ++ ids)
                (adopt-left seeded revision known (count + 1) os))
      ]
    ]

-- Let the view be fresh (the section is new, or the view newer than any it has seen), the section's
-- entries be valid and have room for the view's orders. Then an open order of the view that the view
-- shows under its command id, and that no entry but a place's has, is in the entries that the
-- comparison leaves, by its command id: its entry is kept, or it is adopted.
pub derive_from_section-tracked :
    (v : View) (section : RunnerSectionV6) (d : Derived) (o : BrokerOrderV6)
    → derive_from_section v section ≡ ok d
    → (not section.seeded || ltb section.newest_view_revision v.revision) ≡ true
    → All EntryIsValid section.entries
    → held (compare_all v section.entries) + length v.orders ≤ max_runner_section_entries
    → Elem o v.orders
    → by_command v o.command_id ≡ some o
    → is_terminal o.status ≡ false
    → Places o.command_id section.entries
    → contains o.command_id (left d.steps) ≡ true
derive_from_section-tracked v section d o h fresh valid room member found open_order places =
    let steps = compare_all v section.entries in
    let all_orders : adoptable section v ≡ v.orders = rw (fresh) refl in
    let own = adopt section.seeded v.revision (tracked steps) (held steps) v.orders in
    let steps_are : d.steps ≡ steps ++ own.0 =
      (derive-eq-ok v section d h).1
      ∙ ap (λ os. steps ++ (adopt section.seeded v.revision (tracked steps) (held steps) os).0)
          all_orders in
    let either =
      adopt-tracked section.seeded v.revision (tracked steps) (held steps) v.orders o member
        open_order room in
    let kept = compare_all-left v o section.entries valid places found open_order in
    let own_left = adopt-left section.seeded v.revision (tracked steps) (held steps) v.orders in
    rw (steps_are, left-append steps own.0, contains-append o.command_id (left steps) (left own.0))
      (elim (Bool-cases (contains o.command_id (tracked steps))) [
        | inl known ↦ ground (arith, kept known)
        | inr unknown ↦ ground (arith, either, ap (contains o.command_id) own_left)
      ])
