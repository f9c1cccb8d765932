-- ===== src/Updates/Fills.antt =====
-- The accounting of fills over one entry's comparisons (kernel_v6/updates.rs): what the Strategy
-- is told, what an abandoned update loses, and what the entry records.
use strategy_core.Common.{
  ℕ, ◌+◌, ◌≡◌, refl, true, Option, none, some, List, [], ◌∷◌, inl, inr, arith, if◌then◌else◌,
  is_some, Option-cases,
}
use strategy_core.Wire.Orders.{RunnerEntryV6, OrderUpdateRecordV6, is_place}
use strategy_core.Updates.Records.{Note, Failure, Step}
use strategy_core.Updates.Compare.{View, by_command, compare}
use strategy_core.Updates.Derive.{step_of}
use strategy_core.Updates.Finalize.{Settled, settle}
use strategy_core.Updates.Reports.{filled, shown, Carries, compare-Reports}

-- A decision over one tracked entry: the comparison, and what delivery leaves when the kernel
-- handles the update or fails on it. A failure bears on an update only.
abbrev failure_on : Step → Option Failure → Option Failure
failure_on s f = if is_some s.update then f else none

abbrev newly : Option OrderUpdateRecordV6 → ℕ
newly none = 0
newly (some u) = u.newly_filled_quantity_hundredths

-- The fill that the kernel is told of.
abbrev told_by : Step → Option Failure → ℕ
told_by s none = newly s.update
told_by s (some f) = 0

abbrev lost_by : List Note → ℕ
lost_by [] = 0
lost_by (n ∷ notes) = n.lost_hundredths + lost_by notes

-- An entry under a run of decisions, with the fill told and the fill reported lost so far.
pub record Ledger : Type 0 where
  pub entry : Option RunnerEntryV6
  pub told : ℕ
  pub lost : ℕ

abbrev after : Ledger → Step → Option Failure → Option Settled → Ledger
after l s f none = l
after l s f (some r) = record {
  entry = r.entry;
  told = l.told + told_by s f;
  lost = l.lost + lost_by r.notes;
}

abbrev on_entry : Ledger → View → Option Failure → RunnerEntryV6 → Ledger
on_entry l v f e = let s = step_of v e in after l s (failure_on s f) (settle s (failure_on s f))

unfoldable pub decide : View → Option Failure → Ledger → Ledger
decide v f l = elim l.entry [ none ↦ l | some e ↦ on_entry l v f e ]

unfoldable pub run : List (View × Option Failure) → Ledger → Ledger
run [] l = l
run ((v, f) ∷ ds) l = run ds (decide v f l)

abbrev pub opened : RunnerEntryV6 → Ledger
opened e = record { entry = some e; told = 0; lost = 0 }

-- What the entry records is what it began with, plus what was told and what was reported lost.
record Balanced (base : ℕ) (l : Ledger) : Type 0 where
  sum : (n : RunnerEntryV6) → l.entry ≡ some n → base + l.told + l.lost ≡ filled n
  place : (n : RunnerEntryV6) → l.entry ≡ some n → is_place n.kind ≡ true

-- The entry that a decision leaves: by the update and the failure on it.
module _ (e n : RunnerEntryV6) (seen : ℕ) (next : Option RunnerEntryV6) where
  abbrev step_from : Option OrderUpdateRecordV6 → Step
  step_from update = record { previous = some e; next = next; update = update }

  settled_sum :
      (update : Option OrderUpdateRecordV6) (f : Option Failure) (r : Settled)
      → Carries e seen next update
      → let s = step_from update in
        settle s (failure_on s f) ≡ some r
        → r.entry ≡ some n
        → (filled e + told_by s (failure_on s f) + lost_by r.notes ≡ filled n) × (n.kind ≡ e.kind)
  unfolding settle
  settled_sum none f r p h k = elim (Option-cases next) [
    | inl gone ↦ ground arith
    | inr (m, there) ↦ ground (arith, p.recorded m there, p.quiet refl)
  ]
  settled_sum (some u) none r p h k = elim (Option-cases next) [
    | inl gone ↦ ground arith
    | inr (m, there) ↦ ground (arith, p.recorded m there, p.told u refl)
  ]
  settled_sum (some u) (some f) r p h k = elim (Option-cases next) [
    | inl gone ↦ ground arith
    | inr (m, there) ↦ ground (arith, p.recorded m there, p.told u refl)
  ]

  -- A decision whose update the kernel handles leaves nothing of the shown fill untold.
  handled_sum :
      (update : Option OrderUpdateRecordV6)
      → Carries e seen next update
      → filled e + newly update ≡ seen
  handled_sum none p = ground (arith, p.quiet refl)
  handled_sum (some u) p = p.told u refl

decide-Balanced :
    (base : ℕ) (v : View) (f : Option Failure) (l : Ledger)
    → Balanced base l
    → Balanced base (decide v f l)
unfolding decide
decide-Balanced base v f l b = go l.entry refl
  where
    go : (o : Option RunnerEntryV6) → l.entry ≡ o → Balanced base (decide v f l)
    go none none_left = rw (none_left, decide) b
    go (some e) tracked = rw (tracked, decide) (settled_entry (settle s (failure_on s f)) refl)
      where
        s : Step
        s = step_of v e

        settled_entry :
            (o : Option Settled)
            → settle s (failure_on s f) ≡ o
            → Balanced base (after l s (failure_on s f) o)
        settled_entry none h = b
        settled_entry (some r) h = record {
          sum = λ n k. ground (arith, b.sum e tracked, part n k);
          place = λ n k. ground (arith, b.place e tracked, part n k);
        }
          where
            part :
                (n : RunnerEntryV6)
                → r.entry ≡ some n
                → (filled e + told_by s (failure_on s f) + lost_by r.notes ≡ filled n)
                  × (n.kind ≡ e.kind)
            part n k =
                settled_sum e n _ (compare v e).next (compare v e).update f r
                  (compare-Reports v e (b.place e tracked)) h k

run-Balanced :
    (base : ℕ) (ds : List (View × Option Failure)) (l : Ledger)
    → Balanced base l
    → Balanced base (run ds l)
unfolding run
run-Balanced base [] l b = b
run-Balanced base ((v, f) ∷ ds) l b =
    run-Balanced base ds (decide v f l) (decide-Balanced base v f l b)

opened-Balanced : (e : RunnerEntryV6) → is_place e.kind ≡ true → Balanced (filled e) (opened e)
opened-Balanced e place = record { sum = λ n k. ground arith; place = λ n k. ground arith }

-- Whatever views a place's entry is compared with (stale, truncated or reordered), and whatever
-- updates the kernel fails on: while the entry is tracked, the fill that it records is the fill it
-- began with plus all that the kernel was told and all that was reported lost with an abandoned
-- update.
pub told-lost-run :
    (e n : RunnerEntryV6) (ds : List (View × Option Failure))
    → is_place e.kind ≡ true
    → (run ds (opened e)).entry ≡ some n
    → filled e + (run ds (opened e)).told + (run ds (opened e)).lost ≡ filled n
told-lost-run e n ds place k =
    (run-Balanced (filled e) ds (opened e) (opened-Balanced e place)).sum n k

handled_told :
    (l : Ledger) (v : View) (n : RunnerEntryV6)
    → (on_entry l v none n).told ≡ l.told + newly (compare v n).update
unfolding settle
handled_told l v n = ground arith

-- After any run of decisions over a place's entry, with any views and failures, let the entry still
-- be tracked and the kernel handle a decision at a view. Then the fill that the entry began with,
-- with what the kernel was told and what was reported lost, is the fill that the view shows, or the
-- recorded one if that is larger or the view's record older: nothing else is ever missing.
pub told-all_shown :
    (e n : RunnerEntryV6) (ds : List (View × Option Failure)) (v : View)
    → is_place e.kind ≡ true
    → (run ds (opened e)).entry ≡ some n
    → filled e + (decide v none (run ds (opened e))).told + (run ds (opened e)).lost
      ≡ shown n (by_command v n.command_id)
unfolding decide
told-all_shown e n ds v place k =
    rw (k, decide)
      (omega (
        arith,
        handled_told (run ds (opened e)) v n,
        told-lost-run e n ds place k,
        handled_sum n n _ _ (compare v n).update (
            compare-Reports v n
              ((run-Balanced (filled e) ds (opened e) (opened-Balanced e place)).place n k)),
      ))
