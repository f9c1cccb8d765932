-- ===== src/Updates/Finalize.antt =====
-- The runner section after delivery (`Derived::finalize` in kernel_v6/updates.rs). The failed
-- updates are a function from the steps' indexes; `none` stands for the source's panic on a failed
-- update without an entry.
use strategy_core.Common.{
  ℕ, zero, suc, ◌+◌, Bool, true, false, not, ◌&&◌, ◌||◌, String, Option, none, some, List, [], ◌∷◌,
  ◌++◌, count_if, contains, is_some, map_or, ltb, if◌then◌else◌,
}
use strategy_core.Wire.Bounds.{max_delivery_attempts, max_delivery_deferrals, max_tombstones}
use strategy_core.Wire.Orders.{RunnerEntryV6}
use strategy_core.Updates.Records.{Note, note, Failure, Step}

-- The attempts and deferrals of an entry after a failure.
abbrev pub attempts_after : Failure → RunnerEntryV6 → ℕ
attempts_after Failure.counted entry = entry.delivery_failures + 1
attempts_after _ entry = entry.delivery_failures

abbrev pub deferrals_after : Failure → RunnerEntryV6 → ℕ
deferrals_after Failure.counted entry = 0
deferrals_after Failure.deferred entry = entry.delivery_deferrals + 1
deferrals_after Failure.held entry = entry.delivery_deferrals + 1
deferrals_after Failure.rolled_back entry = entry.delivery_deferrals

-- What one step leaves: its entry, the notes, and the command id of a tombstone to evict last.
pub record Settled : Type 0 where
  pub entry : Option RunnerEntryV6
  pub notes : List Note
  pub pending : List String

abbrev pub abandoned : Step → RunnerEntryV6 → Note
abandoned s previous = record {
  code = "order_update_abandoned";
  command_id = previous.command_id;
  lost_hundredths = map_or s.update 0 (λ update. update.newly_filled_quantity_hundredths);
}

-- The entry of a step whose update is delivered or abandoned, or that has none.
abbrev pub handled : Step → Option RunnerEntryV6
handled s = elim s.next [
  | none ↦ none
  | some next ↦
      if is_some s.update
      then some (record next { delivery_failures = 0; delivery_deferrals = 0 })
      else some next
]

-- The update is delivered again: neither bound is reached.
abbrev pub may_retry : Failure → RunnerEntryV6 → Bool
may_retry failure entry =
    ltb (attempts_after failure entry) max_delivery_attempts
    && ltb (deferrals_after failure entry) max_delivery_deferrals

-- A step whose update failed.
abbrev pub fail : Step → Failure → RunnerEntryV6 → Settled
fail s failure previous =
    if may_retry failure previous
    then record {
      entry = some (record previous {
        delivery_failures = attempts_after failure previous;
        delivery_deferrals = deferrals_after failure previous;
      });
      notes = [];
      pending = if previous.vanished then previous.command_id ∷ [] else [];
    }
    else record { entry = handled s; notes = abandoned s previous ∷ []; pending = [] }

-- The loop body over the steps.
unfoldable pub settle : Step → Option Failure → Option Settled
settle s none = some (record { entry = handled s; notes = []; pending = [] })
settle s (some failure) = elim s.previous [
  | none ↦ none
  | some previous ↦ some (fail s failure previous)
]

pub record Totals : Type 0 where
  pub entries : List RunnerEntryV6
  pub notes : List Note
  pub pending : List String

abbrev pub joined : Settled → Totals → Totals
joined s t = record {
  entries = elim s.entry [ none ↦ t.entries | some entry ↦ entry ∷ t.entries ];
  notes = s.notes ++ t.notes;
  pending = s.pending ++ t.pending;
}

-- The loop over the steps from index `i`.
unfoldable pub settle_all : (ℕ → Option Failure) → ℕ → List Step → Option Totals
unfolding settle
settle_all failed i [] = some (record { entries = []; notes = []; pending = [] })
settle_all failed i (s ∷ steps) = elim (settle s (failed i)) [
  | none ↦ none
  | some one ↦ elim (settle_all failed (i + 1) steps) [
    | none ↦ none
    | some rest ↦ some (joined one rest)
  ]
]

abbrev pub is_tombstone : RunnerEntryV6 → Bool
is_tombstone entry = entry.vanished

abbrev pub tombstones : List RunnerEntryV6 → ℕ
tombstones = count_if is_tombstone

-- `min_by_key` compares whether the tombstone is pending, then the revision it vanished at; the
-- scan keeps the earlier index of equal ones.
unfoldable pub older : List String → RunnerEntryV6 → RunnerEntryV6 → Bool
older pending a b =
    let a_pending = contains a.command_id pending in
    let b_pending = contains b.command_id pending in
    (not a_pending && b_pending)
    || (not (a_pending && not b_pending)
        && not (not a_pending && b_pending)
        && ltb a.vanished_revision b.vanished_revision)

-- Whether an entry replaces the best tombstone so far.
unfoldable pub replaces : List String → RunnerEntryV6 → Option (ℕ × RunnerEntryV6) → Bool
unfolding older
replaces pending entry none = entry.vanished
replaces pending entry (some (_, best)) = entry.vanished && older pending entry best

abbrev index_of : Option (ℕ × RunnerEntryV6) → Option ℕ
index_of none = none
index_of (some (i, _)) = some i

-- The scan for the oldest tombstone, from index `i`, with the best one so far.
unfoldable pub oldest : List String → ℕ → Option (ℕ × RunnerEntryV6) → List RunnerEntryV6 → Option ℕ
unfolding replaces
oldest pending i best [] = index_of best
oldest pending i best (entry ∷ entries) =
    oldest pending (i + 1) (if replaces pending entry best then some (i, entry) else best) entries

-- `entries.remove(i)`
unfoldable pub remove_at : ℕ → List RunnerEntryV6 → List RunnerEntryV6
remove_at i [] = []
remove_at zero (entry ∷ entries) = entries
remove_at (suc i) (entry ∷ entries) = entry ∷ remove_at i entries

unfoldable pub removed_at : ℕ → List RunnerEntryV6 → List Note
removed_at i [] = []
removed_at zero (entry ∷ entries) = note "runner_tombstone_evicted" entry.command_id ∷ []
removed_at (suc i) (entry ∷ entries) = removed_at i entries

-- The eviction loop, with fuel. While there are tombstones there is an oldest one, so the loop does
-- not end at a missing one, where the source would panic.
unfoldable pub evict : ℕ → List String → List RunnerEntryV6 → List RunnerEntryV6 × List Note
unfolding oldest remove_at removed_at
evict zero pending entries = (entries, [])
evict (suc fuel) pending entries = elim (ltb max_tombstones (tombstones entries)) [
  | false ↦ (entries, [])
  | true ↦ elim (oldest pending 0 none entries) [
    | none ↦ (entries, [])
    | some i ↦
        let (rest, notes) = evict fuel pending (remove_at i entries) in
        (rest, removed_at i entries ++ notes)
  ]
]

unfoldable pub finalize :
    (ℕ → Option Failure)
    → List RunnerEntryV6
    → List Step
    → List Note
    → Option (List RunnerEntryV6 × List Note)
unfolding settle_all evict
finalize failed issued steps notes = elim (settle_all failed 0 steps) [
  | none ↦ none
  | some t ↦
      let all = t.entries ++ issued in
      let (left, evicted) = evict (tombstones all) t.pending all in
      some (left, notes ++ t.notes ++ evicted)
]
