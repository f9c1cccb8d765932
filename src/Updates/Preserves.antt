-- ===== src/Updates/Preserves.antt =====
-- What a decision leaves of a valid runner section is valid: the comparison and the delivery
-- together (`derive_from_section` and `Derived::finalize` in kernel_v6/updates.rs).
use strategy_core.Common.{
  ℕ, ◌+◌, ◌≤◌, ◌≡◌, inl, inr, ◌⊎◌, refl, Bool, true, false, is_some, ◌||◌, Option, none, some, List,
  [], ◌∷◌, ◌++◌, String, arith, Bool-cases, All, All-append, ok, ltb, leb, contains, length,
  length-append, count_if-append, not,
}
use strategy_core.Wire.Bounds.{max_runner_section_entries, max_tombstones}
use strategy_core.Wire.Orders.{BrokerOrderV6, RunnerEntryV6, RunnerSectionV6, is_terminal}
use strategy_core.Wire.Text.{valid_identifier}
use strategy_core.Wire.Broker.{validate_broker_order_v6}
use strategy_core.Updates.Records.{Note, Step, Derived, Failure}
use strategy_core.Updates.Compare.{View}
use strategy_core.Updates.Derive.{
  compare_all, held, may_hold, adopt, adoptable, tracked, derive_from_section,
}
use strategy_core.Updates.Finalize.{Totals, settle_all, tombstones, evict, finalize}
use strategy_core.Updates.Validity.{EntryIsValid, OrderFits}
use strategy_core.Updates.Evict.{evict-le, evict-All, length-evict}
use strategy_core.Updates.Section.{
  StepIsValid, OnUpdates, Settles, compare_all-All, adopt-All, settle_all_total, settle_all-Settles,
}

-- Adoption fills the section up to its bound and no further.
adopt-held :
    (seeded : Bool) (revision : ℕ) (known : List String) (count : ℕ) (os : List BrokerOrderV6)
    → count ≤ max_runner_section_entries
    → count + held (adopt seeded revision known count os).0 ≤ max_runner_section_entries
unfolding adopt
adopt-held seeded revision known count [] h = omega arith
adopt-held seeded revision known count (o ∷ os) h =
    elim (Bool-cases (is_terminal o.status || contains o.command_id known)) [
      | inl skipped ↦ rw (skipped, adopt) (adopt-held seeded revision known count os h)
      | inr untracked ↦ elim (Bool-cases (leb max_runner_section_entries count)) [
        | inl full ↦ rw (untracked, full, adopt) (adopt-held seeded revision known count os h)
        | inr room ↦
            rw (untracked, room, adopt)
              (omega (arith, adopt-held seeded revision known (count + 1) os (ground arith)))
      ]
    ]

-- What a section and the views of a decision must be for the section's validity to carry over.
pub record Context (markets : List String) (v : View) (section : RunnerSectionV6) : Type 0 where
  pub named : All (λ m. valid_identifier m ≡ true) markets
  pub orders : All (λ o. validate_broker_order_v6 o markets ≡ ok tt) v.orders
  pub entries : All EntryIsValid section.entries
  pub fits : All (OrderFits markets v) section.entries

record DerivedIsValid (d : Derived) : Type 0 where
  steps : All StepIsValid d.steps
  within : held d.steps ≤ max_runner_section_entries

-- The steps that a comparison adopts.
abbrev pub own_steps : View → RunnerSectionV6 → List Step
own_steps v section =
    let steps = compare_all v section.entries in
    (adopt section.seeded v.revision (tracked steps) (held steps) (adoptable section v)).0

pub derive-eq-ok :
    (v : View) (section : RunnerSectionV6) (d : Derived)
    → derive_from_section v section ≡ ok d
    → (held (compare_all v section.entries) ≤ max_runner_section_entries)
      × (d.steps ≡ compare_all v section.entries ++ own_steps v section)
unfolding derive_from_section
derive-eq-ok v section d h = ground arith

adoptable-All :
    (P : BrokerOrderV6 → Type 0) (v : View) (section : RunnerSectionV6)
    → All P v.orders
    → All P (adoptable section v)
adoptable-All P v section h =
    elim (Bool-cases (not section.seeded || ltb section.newest_view_revision v.revision)) [
      | inl fresh ↦ rw fresh h
      | inr stale ↦ rw stale tt
    ]

derive-DerivedIsValid :
    (markets : List String) (v : View) (section : RunnerSectionV6) (d : Derived)
    → Context markets v section
    → derive_from_section v section ≡ ok d
    → DerivedIsValid d
derive-DerivedIsValid markets v section d c h =
    let (room, steps_are) = derive-eq-ok v section d h in
    record {
      steps = rw steps_are (
          All-append StepIsValid (compare_all v section.entries) (own_steps v section)
            (compare_all-All markets v section.entries c.entries c.fits)
            (adopt-All markets section.seeded v.revision _ _ (adoptable section v) c.named
              (adoptable-All _ v section c.orders)));
      within =
          rw
            (
              steps_are,
              count_if-append may_hold (compare_all v section.entries) (own_steps v section),
            )
            (adopt-held section.seeded v.revision _ _ (adoptable section v) room);
    }

-- The entries of a section after a decision: each valid, the tombstones within their bound, and no
-- more than the section may hold besides the `issued` ones.
pub record InBounds (issued es : List RunnerEntryV6) : Type 0 where
  pub valid : All EntryIsValid es
  pub few_tombstones : tombstones es ≤ max_tombstones
  pub fits : length es ≤ max_runner_section_entries + length issued

finalize-eq-some :
    (failed : ℕ → Option Failure) (issued : List RunnerEntryV6) (steps : List Step)
    (notes : List Note) (t : Totals)
    → settle_all failed 0 steps ≡ some t
    → let all = t.entries ++ issued in
      let (left, evicted) = evict (tombstones all) t.pending all in
      finalize failed issued steps notes ≡ some (left, notes ++ t.notes ++ evicted)
unfolding finalize
finalize-eq-some failed issued steps notes t e = rw (e, finalize)

settled-InBounds :
    (issued : List RunnerEntryV6) (steps : List Step) (t : Totals)
    → All EntryIsValid issued
    → held steps ≤ max_runner_section_entries
    → Settles steps t
    → let all = t.entries ++ issued in InBounds issued (evict (tombstones all) t.pending all).0
settled-InBounds issued steps t good room s =
    let all = t.entries ++ issued in
    record {
      valid =
          evict-All EntryIsValid (tombstones all) t.pending all
            (All-append EntryIsValid t.entries issued s.valid good);
      few_tombstones = evict-le (tombstones all) t.pending all (omega arith);
      fits = omega (
        arith,
        length-evict (tombstones all) t.pending all,
        length-append t.entries issued,
        s.counted,
      );
    }

-- An update is of an entry: adopted orders have none.
FromEntry : Step → Type 0
FromEntry s = (is_some s.update ≡ false) ⊎ (is_some s.previous ≡ true)

compare_all-FromEntry : (v : View) (es : List RunnerEntryV6) → All FromEntry (compare_all v es)
unfolding FromEntry
compare_all-FromEntry v [] = tt
compare_all-FromEntry v (e ∷ es) = (inr refl, compare_all-FromEntry v es)

adopt-FromEntry :
    (seeded : Bool) (revision : ℕ) (known : List String) (count : ℕ) (os : List BrokerOrderV6)
    → All FromEntry (adopt seeded revision known count os).0
unfolding adopt FromEntry
adopt-FromEntry seeded revision known count [] = tt
adopt-FromEntry seeded revision known count (o ∷ os) =
    elim (Bool-cases (is_terminal o.status || contains o.command_id known)) [
      | inl skipped ↦ rw (skipped, adopt) (adopt-FromEntry seeded revision known count os)
      | inr untracked ↦ elim (Bool-cases (leb max_runner_section_entries count)) [
        | inl full ↦ rw (untracked, full, adopt) (adopt-FromEntry seeded revision known count os)
        | inr room ↦
            rw (untracked, room, adopt)
              (inl refl, adopt-FromEntry seeded revision known (count + 1) os)
      ]
    ]

derive-FromEntry :
    (v : View) (section : RunnerSectionV6) (d : Derived)
    → derive_from_section v section ≡ ok d
    → All FromEntry d.steps
derive-FromEntry v section d h = rw ((derive-eq-ok v section d h).1) (
    All-append FromEntry (compare_all v section.entries) (own_steps v section)
      (compare_all-FromEntry v section.entries)
      (adopt-FromEntry section.seeded v.revision _ _ (adoptable section v)))

-- The failures are of updates, as the delivery loop records them.
abbrev pub OfUpdates : (ℕ → Option Failure) → ℕ → List Step → Type 0
OfUpdates failed i [] = Unit
OfUpdates failed i (s ∷ steps) =
    ((failed i ≡ none) ⊎ (is_some s.update ≡ true)) × OfUpdates failed (i + 1) steps

OfUpdates-OnUpdates :
    (failed : ℕ → Option Failure) (i : ℕ) (steps : List Step)
    → All FromEntry steps
    → OfUpdates failed i steps
    → OnUpdates failed i steps
unfolding FromEntry
OfUpdates-OnUpdates failed i [] from of = tt
OfUpdates-OnUpdates failed i (s ∷ steps) (inl no_update, from) (inl none_failed, of) =
    (inl none_failed, OfUpdates-OnUpdates failed (i + 1) steps from of)
OfUpdates-OnUpdates failed i (s ∷ steps) (inl no_update, from) (inr update, of) =
    absurd (ground arith)
OfUpdates-OnUpdates failed i (s ∷ steps) (inr entry, from) (inl none_failed, of) =
    (inl none_failed, OfUpdates-OnUpdates failed (i + 1) steps from of)
OfUpdates-OnUpdates failed i (s ∷ steps) (inr entry, from) (inr update, of) =
    (inr (update, entry), OfUpdates-OnUpdates failed (i + 1) steps from of)

-- Let the section's entries and the view's orders be valid, the markets be named validly, and the
-- order that the view shows under an entry's command id have the quantity that the entry requested
-- (the Broker changes no order's quantity, which no validator checks). Then, whatever updates fail
-- and whatever valid entries the decision issues, the comparison and the delivery leave entries that
-- are each valid, at most `max_tombstones` tombstones, and at most `max_runner_section_entries`
-- entries besides the issued ones; and the delivery does return: an update that fails is of an entry,
-- so the source does not panic.
pub finalize-InBounds :
    (markets : List String) (v : View) (section : RunnerSectionV6) (d : Derived)
    (failed : ℕ → Option Failure) (issued : List RunnerEntryV6)
    → Context markets v section
    → derive_from_section v section ≡ ok d
    → OfUpdates failed 0 d.steps
    → All EntryIsValid issued
    → (es : List RunnerEntryV6) × (notes : List Note) × (finalize failed issued d.steps d.notes
        ≡ some (es, notes))
      × InBounds issued es
finalize-InBounds markets v section d failed issued c h of good =
    let on = OfUpdates-OnUpdates failed 0 d.steps (derive-FromEntry v section d h) of in
    let w = derive-DerivedIsValid markets v section d c h in
    let (t, e) = settle_all_total failed 0 d.steps on in
    let all = t.entries ++ issued in
    let r = evict (tombstones all) t.pending all in
    (
      r.0,
      d.notes ++ t.notes ++ r.1,
      finalize-eq-some failed issued d.steps d.notes t e,
      settled-InBounds issued d.steps t good w.within
          (settle_all-Settles failed 0 d.steps t on w.steps e),
    )
