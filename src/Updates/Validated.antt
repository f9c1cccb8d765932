-- ===== src/Updates/Validated.antt =====
-- The runner section's validator against what its entries must be (`validate_runner_section` in
-- native/strategy_core_v3/src/decision_v6.rs).
pub mod Distinct
pub mod Entry
use strategy_core.Common.{
  ◌≤◌, ◌≡◌, ◌↔◌, refl, inl, inr, false, List, [], ◌∷◌, map, length, count_if, any, All, arith, ◌&&◌,
  ok, Bool-cases,
}
use strategy_core.Wire.Bounds.{max_runner_section_entries, max_tombstones}
use strategy_core.Updates.Validated.Distinct.{
  NoRepeat, OncePlaced, unique-NoRepeat, unique-OncePlaced,
}
use strategy_core.Wire.Orders.{RunnerEntryV6, RunnerSectionV6}
use strategy_core.Wire.Text.{valid_identifier}
use strategy_core.Wire.Runner.{
  bad_counters, order_fields_valid, shape, check_entries, validate_runner_section,
}
use strategy_core.Updates.Validated.Entry.{Holds, check-Holds, Holds-counters, Holds-check}

-- A section that a result may carry: its bounds, entries that it may hold, and no command id nor
-- place's client order id twice.
pub record SectionIsValid (r : RunnerSectionV6) : Type 0 where
  pub few_entries : length r.entries ≤ max_runner_section_entries
  pub few_tombstones : count_if (λ (e : RunnerEntryV6). e.vanished) r.entries ≤ max_tombstones
  pub entries : All Holds r.entries
  pub commands : NoRepeat (map (λ (e : RunnerEntryV6). e.command_id) r.entries)
  pub clients : OncePlaced r.entries

check_entries-Holds :
    (es : List RunnerEntryV6)
    → any bad_counters es ≡ false
    → check_entries es ≡ ok tt
    → All Holds es
unfolding check_entries
check_entries-Holds [] counters checked = tt
check_entries-Holds (e ∷ es) counters checked =
    elim (Bool-cases (valid_identifier e.command_id && order_fields_valid e && shape e)) [
      | inl passes ↦ (
        check-Holds e (ground (arith, counters)) passes,
        check_entries-Holds es (ground (arith, counters)) (rw (passes, check_entries) at checked),
      )
      | inr fails ↦ absurd (cc (rw (fails, check_entries) at checked))
    ]

Holds-any : (es : List RunnerEntryV6) → All Holds es → any bad_counters es ≡ false
Holds-any [] h = refl
Holds-any (e ∷ es) (first, later) = ground (arith, Holds-counters e first, Holds-any es later)

Holds-check_entries : (es : List RunnerEntryV6) → All Holds es → check_entries es ≡ ok tt
unfolding check_entries
Holds-check_entries [] h = refl
Holds-check_entries (e ∷ es) (first, later) =
    rw (Holds-check e first, check_entries) (Holds-check_entries es later)

validate_runner_section-SectionIsValid :
    (r : RunnerSectionV6) → validate_runner_section r ≡ ok tt → SectionIsValid r
unfolding validate_runner_section
validate_runner_section-SectionIsValid r h = record {
  few_entries = ground arith;
  few_tombstones = ground arith;
  entries = check_entries-Holds r.entries (ground arith) (ground arith);
  commands =
      (unique-NoRepeat (map (λ (e : RunnerEntryV6). e.command_id) r.entries)).0 (ground arith);
  clients = (unique-OncePlaced r.entries).0 (ground arith);
}

SectionIsValid-validate_runner_section :
    (r : RunnerSectionV6) → SectionIsValid r → validate_runner_section r ≡ ok tt
unfolding validate_runner_section
SectionIsValid-validate_runner_section r v = ground (
  arith,
  v.few_entries,
  v.few_tombstones,
  (unique-NoRepeat (map (λ (e : RunnerEntryV6). e.command_id) r.entries)).1 v.commands,
  (unique-OncePlaced r.entries).1 v.clients,
  Holds-any r.entries v.entries,
  Holds-check_entries r.entries v.entries,
)

-- A runner section passes validation when, and only when, it has at most the bound of entries and
-- of tombstones, no command id twice, no two places with one client order id, and each of its
-- entries holds: its three counters are below their bounds; only a tombstone has a revision at
-- which it vanished or views without it; its ids are identifiers; its fill is at most its
-- quantity, which fits 64 signed bits; a place has its client order id, market, action, side and a
-- positive quantity, and its last status, if any, is accepted, resting or partially filled; a
-- cancel has no status; and a cancel of all has no status, no field of an order and no quantity.
pub validate_runner_section_lem :
    (r : RunnerSectionV6) → (validate_runner_section r ≡ ok tt) ↔ SectionIsValid r
validate_runner_section_lem r =
    (validate_runner_section-SectionIsValid r, SectionIsValid-validate_runner_section r)
