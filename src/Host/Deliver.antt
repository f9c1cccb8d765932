-- ===== src/Host/Deliver.antt =====
-- The delivery of the derived order updates to a kernel (`run_transaction` in
-- native/strategy_core_v3/src/kernel_v6.rs). The kernel and its factory are the Strategy's: their
-- state, codec and reaction to an update are parameters, and so are the texts of the records.
use strategy_core.Common.{
  ℕ, ◌+◌, Bool, true, false, not, ◌&&◌, String, Option, none, some, List, [], ◌∷◌, any, Result, ok,
  err, is_some, is_some_and, str_eq, ltb, leb, ◌==◌, if◌then◌else◌,
}
use strategy_core.Wire.Bounds.{max_delivery_deferrals}
use strategy_core.Wire.Orders.{OrderUpdateRecordV6, is_place}
use strategy_core.Updates.Records.{Failure, Step, deferral}
use strategy_core.Updates.Delivery.{step_at, targets}
use strategy_core.Host.State.{
  KernelError, KernelHost, HostOutput, UpdateStart, SavedDecision, save, restore, begin_update,
  end_update,
}
use strategy_core.Host.Calls.{output}

-- A kernel with its factory: a snapshot is its encoded state.
pub record Kernel : Type 1 where
  pub State : Type 0
  pub Snapshot : Type 0
  pub initial : Result String State
  pub encode : State → Result String Snapshot
  pub decode : Snapshot → Result String State
  pub on_update :
      OrderUpdateRecordV6 → State → KernelHost → Result String (Unit {0}) × State × KernelHost

-- What is written of a refusal and of a failure.
pub record Texts : Type 0 where
  pub message : KernelError → String
  pub held : OrderUpdateRecordV6 → Step → String
  pub unsaved : OrderUpdateRecordV6 → Step → String → String
  pub failed : OrderUpdateRecordV6 → Step → Failure → String → String
  pub unrestored : OrderUpdateRecordV6 → Step → String → String → String
  pub out_of_order : OrderUpdateRecordV6 → Step → String

-- The state of the loop: the kernel, the host, the failures by index, what was saved before the first
-- update until it is restored, the start of the delivery unit, and whether the loop was left.
pub record Delivery (k : Kernel) : Type 0 where
  pub kernel : k.State
  pub host : KernelHost
  pub failed : List (ℕ × Failure)
  pub start : Option SavedDecision
  pub unit_start : Option UpdateStart
  pub left : Bool

-- `failed.get(&index)`
abbrev pub failed_at : List (ℕ × Failure) → ℕ → Option Failure
failed_at [] i = none
failed_at ((j, failure) ∷ rest) i = if j == i then some failure else failed_at rest i

-- `failed.entry(other).or_insert(Failure::RolledBack)` for each step with an update, from index `i`
unfoldable pub roll_back_rest : ℕ → List Step → List (ℕ × Failure) → List (ℕ × Failure)
roll_back_rest i [] failed = failed
roll_back_rest i (s ∷ steps) failed = roll_back_rest (i + 1) steps (
    if is_some s.update && not (is_some (failed_at failed i))
    then (i, Failure.rolled_back) ∷ failed
    else failed)

-- An update of one of a cancel's targets failed in this decision.
unfoldable pub is_out_of_order : List Step → List (ℕ × Failure) → ℕ → Bool
is_out_of_order steps failed index = any (λ t. is_some (failed_at failed t)) (targets steps index)

-- A cancel's refusal that would reach the deferral bound.
abbrev cancel_at_bound : OrderUpdateRecordV6 → Step → Bool
cancel_at_bound update s = not (is_place update.kind) && leb max_delivery_deferrals (deferral s)

-- Deferred only when the kernel returned the refusal itself.
abbrev pub failure_of : Texts → OrderUpdateRecordV6 → Step → Option KernelError → String → Failure
failure_of texts update s deferrable error =
    if not (cancel_at_bound update s)
      && is_some_and deferrable (λ m. str_eq (texts.message m) error)
    then Failure.deferred
    else Failure.counted

module _ (k : Kernel) (texts : Texts) (steps : List Step) where
  -- A failure is recorded, with its output.
  abbrev pub record_failure : Delivery k → ℕ → Failure → String → Delivery k
  record_failure d index failure text = record d {
    failed = (index, failure) ∷ d.failed;
    host = output d.host (HostOutput.update_error text failure);
  }

  -- The kernel could not go back: everything goes back to before the first update.
  abbrev pub start_over :
      Delivery k
      → ℕ
      → Step
      → OrderUpdateRecordV6
      → String
      → String
      → Result String k.State
      → Result String (Delivery k)
  start_over d index s update error restore_error (err message) = err message
  start_over d index s update error restore_error (ok initial) =
      let back : KernelHost = elim d.start [ none ↦ d.host | some saved ↦ restore d.host saved ] in
      ok (record {
        kernel = initial;
        host = output back (
            HostOutput.update_error (texts.unrestored update s error restore_error)
              Failure.counted);
        failed = roll_back_rest 0 steps ((index, Failure.counted) ∷ d.failed);
        start = none;
        unit_start = d.unit_start;
        left = true;
      })

  -- The update failed and the decision is back where it was: the kernel follows.
  abbrev pub back :
      Delivery k
      → ℕ
      → Step
      → OrderUpdateRecordV6
      → Option KernelError
      → String
      → Result String k.State
      → Result String (Delivery k)
  back d index s update deferrable error (ok restored) =
      let failure = failure_of texts update s deferrable error in
      ok (
        record_failure (record d { kernel = restored }) index failure
          (texts.failed update s failure error))
  back d index s update deferrable error (err restore_error) =
      start_over d index s update error restore_error k.initial

  -- What the kernel's reaction leads to.
  abbrev pub reacted :
      Delivery k
      → ℕ
      → Step
      → OrderUpdateRecordV6
      → Bool
      → SavedDecision
      → UpdateStart
      → Result String k.State
      → Option KernelError × KernelHost
      → Result String (Unit {0}) × k.State
      → Result String (Delivery k)
  reacted d index s update out_of_order saved unit restored (deferrable, host) (ok done, state) =
      ok (record d {
        kernel = state;
        unit_start = some unit;
        host =
            if out_of_order
            then output host (
                HostOutput.update_warning "order_update_out_of_order" (texts.out_of_order update s))
            else host;
      })
  reacted d index s update out_of_order saved unit restored (deferrable, host) (err error, state) =
      back (record d { host = restore host saved; unit_start = some unit }) index s update
        deferrable error restored

  -- An update that is delivered, with the kernel's snapshot.
  unfoldable pub delivered :
      Delivery k
      → ℕ
      → Step
      → OrderUpdateRecordV6
      → Bool
      → Result String k.Snapshot
      → Result String (Delivery k)
  unfolding save restore begin_update end_update output roll_back_rest
  delivered d index s update out_of_order (err error) =
      ok (record_failure d index Failure.counted (texts.unsaved update s error))
  delivered d index s update out_of_order (ok snapshot) =
      let begun = begin_update d.host d.unit_start in
      let outcome = k.on_update update d.kernel begun.1 in
      reacted d index s update out_of_order (save d.host) begun.0 (k.decode snapshot)
        (end_update outcome.2) (outcome.0, outcome.1)

  -- The body of the loop for a step that has an update.
  unfoldable pub deliver_update :
      Delivery k → ℕ → Step → OrderUpdateRecordV6 → Result String (Delivery k)
  unfolding delivered is_out_of_order
  deliver_update d index s update =
      let out_of_order = is_out_of_order steps d.failed index in
      if out_of_order && ltb (deferral s) max_delivery_deferrals
      then ok (record_failure d index Failure.held (texts.held update s))
      else delivered d index s update out_of_order (k.encode d.kernel)

  -- The body of the loop: a step with no update is passed over.
  abbrev pub deliver_step : Delivery k → ℕ → Option Step → Result String (Delivery k)
  deliver_step d index none = ok d
  deliver_step d index (some s) = elim s.update [
    | none ↦ ok d
    | some update ↦ deliver_update d index s update
  ]

  -- The indexes of a unit, in order.
  unfoldable pub deliver_unit : Delivery k → List ℕ → Result String (Delivery k)
  unfolding deliver_update step_at
  deliver_unit d [] = ok d
  deliver_unit d (index ∷ unit) =
      if d.left then ok d else elim (deliver_step d index (step_at steps index)) [
        | err message ↦ err message
        | ok next ↦ deliver_unit next unit
      ]

  -- The units, each with a start of its own.
  unfoldable pub deliver_all : Delivery k → List (List ℕ) → Result String (Delivery k)
  unfolding deliver_unit
  deliver_all d [] = ok d
  deliver_all d (unit ∷ units) = elim (deliver_unit (record d { unit_start = none }) unit) [
    | err message ↦ err message
    | ok next ↦ deliver_all next units
  ]

-- The loop of `run_transaction`, from a kernel and a host.
unfoldable pub deliver :
    (k : Kernel)
    → Texts
    → List Step
    → k.State
    → KernelHost
    → List (List ℕ)
    → Result String (Delivery k)
unfolding deliver_all
deliver k texts steps kernel host order =
    deliver_all k texts steps
      (record {
        kernel = kernel;
        host = host;
        failed = [];
        start = some (save host);
        unit_start = none;
        left = false;
      })
      order
