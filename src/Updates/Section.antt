-- ===== src/Updates/Section.antt =====
-- The runner section that a decision leaves is within the validator's bounds
-- (`derive_from_section` and `Derived::finalize` in kernel_v6/updates.rs).
use strategy_core.Common.{
  ℕ, ◌+◌, ◌≤◌, ◌≡◌, refl, sym, ◌∙◌, ◌⊎◌, inl, inr, Bool, true, false, ◌||◌, Option, none, some,
  List, [], ◌∷◌, String, arith, Option-cases, Bool-cases, All, ok, leb, contains, is_some, length,
  subst, any, any-All, str_eq,
}
use mathlib.Core.Option.{some-injective}
use strategy_core.Wire.Bounds.{max_runner_section_entries}
use strategy_core.Wire.Orders.{BrokerOrderV6, RunnerEntryV6, is_terminal}
use strategy_core.Wire.Text.{valid_identifier}
use strategy_core.Wire.Runner.{bad_counters, order_fields_valid, shape}
use strategy_core.Wire.Broker.{order_names_valid, validate_broker_order_v6}
use strategy_core.Updates.Records.{Step, Failure, adopted}
use strategy_core.Updates.Compare.{View}
use strategy_core.Updates.Derive.{compare_all, held, may_hold, adopt}
use strategy_core.Updates.Finalize.{Settled, Totals, settle, settle_all, joined, fail}
use strategy_core.Updates.Validity.{
  EntryIsValid, OrderFits, Left-EntryIsValid, settle-Left, compare-EntryIsValid, valid_order_filled,
  seen_status_terminal,
}

-- The entries before and after a step are valid.
pub record StepIsValid (s : Step) : Type 0 where
  pub after : (m : RunnerEntryV6) → s.next ≡ some m → EntryIsValid m
  pub before : (p : RunnerEntryV6) → s.previous ≡ some p → EntryIsValid p

pub compare_all-All :
    (markets : List String) (v : View) (es : List RunnerEntryV6)
    → All EntryIsValid es
    → All (OrderFits markets v) es
    → All StepIsValid (compare_all v es)
compare_all-All markets v [] valid fits = tt
compare_all-All markets v (e ∷ es) valid fits = (
  record {
    after = λ m h. compare-EntryIsValid markets v e m valid.0 fits.0 h;
    before = λ p h. subst EntryIsValid (ground arith) valid.0;
  },
  compare_all-All markets v es valid.1 fits.1,
)

valid_order_market :
    (o : BrokerOrderV6) (markets : List String)
    → validate_broker_order_v6 o markets ≡ ok tt
    → any (λ m. str_eq m o.market_id) markets ≡ true
unfolding validate_broker_order_v6 order_names_valid
valid_order_market o markets h = ground arith

adopted-EntryIsValid :
    (markets : List String) (o : BrokerOrderV6) (revision : ℕ)
    → All (λ m. valid_identifier m ≡ true) markets
    → validate_broker_order_v6 o markets ≡ ok tt
    → is_terminal o.status ≡ false
    → EntryIsValid (adopted o revision)
unfolding adopted
adopted-EntryIsValid markets o revision named good running = record {
  counters = unfold bad_counters in refl;
  identified = unfold validate_broker_order_v6 order_names_valid in ground (arith, good);
  in_bounds =
      unfold validate_broker_order_v6 order_names_valid order_fields_valid in
      ground (arith, good, valid_order_filled o markets good, market);
  shaped =
      unfold validate_broker_order_v6 shape in
      ground (arith, good, seen_status_terminal o none (λ s h. cc));
}
  where
    market : valid_identifier o.market_id ≡ true
    market = any-All valid_identifier o.market_id markets named (valid_order_market o markets good)

-- Each adopted step is valid, and the adoption stops at the section's bound.
pub adopt-All :
    (markets : List String) (seeded : Bool) (revision : ℕ) (known : List String) (count : ℕ)
    (os : List BrokerOrderV6)
    → All (λ m. valid_identifier m ≡ true) markets
    → All (λ o. validate_broker_order_v6 o markets ≡ ok tt) os
    → All StepIsValid (adopt seeded revision known count os).0
unfolding adopt
adopt-All markets seeded revision known count [] named good = tt
adopt-All markets seeded revision known count (o ∷ os) named good =
    elim (Bool-cases (is_terminal o.status || contains o.command_id known)) [
      | inl skipped ↦
          rw (skipped, adopt) (adopt-All markets seeded revision known count os named good.1)
      | inr open_order ↦ elim (Bool-cases (leb max_runner_section_entries count)) [
        | inl full ↦
            rw (open_order, full, adopt)
              (adopt-All markets seeded revision known count os named good.1)
        | inr room ↦
            rw (open_order, room, adopt)
              (
                record {
                  after = λ m h.
                      subst EntryIsValid (ground arith)
                        (adopted-EntryIsValid markets o revision named good.0 (ground arith));
                  before = λ p h. cc;
                },
                adopt-All markets seeded revision known (count + 1) os named good.1,
              )
      ]
    ]

-- Failures are of updates: the step at each failed index has one.
abbrev pub OnUpdates : (ℕ → Option Failure) → ℕ → List Step → Type 0
OnUpdates failed i [] = Unit
OnUpdates failed i (s ∷ steps) =
    ((failed i ≡ none) ⊎ ((is_some s.update ≡ true) × (is_some s.previous ≡ true)))
    × OnUpdates failed (i + 1) steps

settle_total :
    (s : Step) (f : Option Failure)
    → (f ≡ none) ⊎ ((is_some s.update ≡ true) × (is_some s.previous ≡ true))
    → (r : Settled) × (settle s f ≡ some r)
unfolding settle
settle_total s none h = (_, refl)
settle_total s (some f) (inl e) = cc
settle_total s (some f) (inr (u, p)) = elim (Option-cases s.previous) [
  | inl gone ↦ cc
  | inr (e, there) ↦ (fail s f e, rw there)
]

pub settle_all_total :
    (failed : ℕ → Option Failure) (i : ℕ) (steps : List Step)
    → OnUpdates failed i steps
    → (t : Totals) × (settle_all failed i steps ≡ some t)
unfolding settle_all
settle_all_total failed i [] h = (_, refl)
settle_all_total failed i (s ∷ steps) h =
    let (r, one) = settle_total s (failed i) h.0 in
    let (t, rest) = settle_all_total failed (i + 1) steps h.1 in
    (joined r t, rw (one, rest, settle_all))

-- What a step that may be held leaves counts as one entry at most.
settle-held :
    (s : Step) (f : Option Failure) (r : Settled)
    → (f ≡ none) ⊎ ((is_some s.update ≡ true) × (is_some s.previous ≡ true))
    → settle s f ≡ some r
    → (r.entry ≡ none) ⊎ (may_hold s ≡ true)
unfolding settle
settle-held s f r (inr (u, p)) k = inr (ground (arith, u))
settle-held s none r (inl e) k = elim (Option-cases s.next) [
  | inl gone ↦ inl (ground arith)
  | inr (m, there) ↦ inr (ground arith)
]
settle-held s (some f) r (inl e) k = cc

pub record Settles (steps : List Step) (t : Totals) : Type 0 where
  pub valid : All EntryIsValid t.entries
  pub counted : length t.entries ≤ held steps

joined-Settles :
    {s : Step} {steps : List Step} (r : Settled) (u : Totals)
    → ((m : RunnerEntryV6) → r.entry ≡ some m → EntryIsValid m)
    → (r.entry ≡ none) ⊎ (may_hold s ≡ true)
    → Settles steps u
    → Settles (s ∷ steps) (joined r u)
joined-Settles {s} {steps} r u valid holds ih = elim (Option-cases r.entry) [
  | inl gone ↦ record {
    valid = rw (gone, joined) ih.valid;
    counted = rw (gone, joined) (ground (arith, ih.counted));
  }
  | inr (m, there) ↦ record {
    valid = rw (there, joined) (valid m there, ih.valid);
    counted = rw (there, joined) (ground (arith, ih.counted));
  }
]

pub settle_all-Settles :
    (failed : ℕ → Option Failure) (i : ℕ) (steps : List Step) (t : Totals)
    → OnUpdates failed i steps
    → All StepIsValid steps
    → settle_all failed i steps ≡ some t
    → Settles steps t
unfolding settle_all
settle_all-Settles failed i [] t on good h =
    rw (← some-injective _ t h) (record { valid = tt; counted = omega arith })
settle_all-Settles failed i (s ∷ steps) t on good h =
    let (r, one) = settle_total s (failed i) on.0 in
    let (u, rest) = settle_all_total failed (i + 1) steps on.1 in
    let both : settle_all failed i (s ∷ steps) ≡ some (joined r u) = rw (one, rest, settle_all) in
    let same : joined r u ≡ t = some-injective (joined r u) t (sym both ∙ h) in
    subst (Settles (s ∷ steps)) same (
      joined-Settles r u
        (λ m k. Left-EntryIsValid good.0.after good.0.before (settle-Left s (failed i) r m one k))
        (settle-held s (failed i) r on.0 one)
        (settle_all-Settles failed (i + 1) steps u on.1 good.1 rest))
