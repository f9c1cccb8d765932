-- ===== src/Host/Undone.antt =====
-- What a failed order update changes (`run_transaction` in
-- native/strategy_core_v3/src/kernel_v6.rs).
use strategy_core.Common.{
  ℕ, ◌≡◌, refl, subst, Bool, true, false, String, Option, none, some, List, Result, ok, err, ◌&&◌,
  ltb, arith, if◌then◌else◌,
}
use strategy_core.Wire.Bounds.{max_delivery_deferrals}
use strategy_core.Wire.Orders.{OrderUpdateRecordV6}
use strategy_core.Updates.Records.{Failure, Step, deferral}
use strategy_core.Host.State.{
  KernelHost, HostOutput, UpdateStart, KernelError, save, restore, begin_update, end_update,
}
use strategy_core.Host.Calls.{output}
use strategy_core.Host.Deliver.{
  Kernel, Texts, Delivery, failed_at, is_out_of_order, delivered, deliver_update, start_over, back,
  reacted,
}

-- Two hosts with the same decision: what is saved of them but the number of outputs.
pub record SameDecision (h h' : KernelHost) : Type 0 where
  pub finances : h'.finances ≡ h.finances
  pub provisional : h'.provisional ≡ h.provisional
  pub cancellation_requested : h'.cancellation_requested ≡ h.cancellation_requested
  pub commands : h'.commands ≡ h.commands
  pub runner : h'.runner ≡ h.runner
  pub rows : h'.rows ≡ h.rows
  pub timer_keys : h'.timer_keys ≡ h.timer_keys

module _ (k : Kernel) (texts : Texts) (steps : List Step) where
  same_decision : (h h' : KernelHost) → SameDecision h (restore h' (save h))
  unfolding restore save
  same_decision h h' = record {
    finances = refl;
    provisional = refl;
    cancellation_requested = refl;
    commands = refl;
    runner = refl;
    rows = refl;
    timer_keys = refl;
  }

  -- Whether a failed update has changed neither the kernel nor the decision.
  abbrev Undone : Delivery k → ℕ → Result String (Delivery k) → Type 0
  Undone d index r =
      (d' : Delivery k) (f : Failure)
      → r ≡ ok d'
      → failed_at d'.failed index ≡ some f
      → d'.left ≡ false
      → (d'.kernel ≡ d.kernel) × SameDecision d.host d'.host

  unchanged : (h : KernelHost) → SameDecision h h
  unchanged h = record {
    finances = refl;
    provisional = refl;
    cancellation_requested = refl;
    commands = refl;
    runner = refl;
    rows = refl;
    timer_keys = refl;
  }

  -- An output changes nothing of the decision.
  noted-SameDecision :
      (h h' : KernelHost) (o : HostOutput) → SameDecision h h' → SameDecision h (output h' o)
  unfolding output
  noted-SameDecision h h' o s = record {
    finances = s.finances;
    provisional = s.provisional;
    cancellation_requested = s.cancellation_requested;
    commands = s.commands;
    runner = s.runner;
    rows = s.rows;
    timer_keys = s.timer_keys;
  }

  ok-Undone :
      (d d1 : Delivery k) (index : ℕ)
      → d1.kernel ≡ d.kernel
      → SameDecision d.host d1.host
      → Undone d index (ok d1)
  ok-Undone d d1 index kernel decision d' f e failed stays =
      let same : d1 ≡ d' = ground arith in
      subst (λ x. (x.kernel ≡ d.kernel) × SameDecision d.host x.host) same (kernel, decision)

  delivered_ok-Undone :
      (d d1 : Delivery k) (index : ℕ) → failed_at d1.failed index ≡ none → Undone d index (ok d1)
  delivered_ok-Undone d d1 index none_failed d' f e failed stays = absurd (ground arith)

  left-Undone : (d d1 : Delivery k) (index : ℕ) → d1.left ≡ true → Undone d index (ok d1)
  left-Undone d d1 index left d' f e failed stays = absurd (ground arith)

  err-Undone : (d : Delivery k) (index : ℕ) (message : String) → Undone d index (err message)
  err-Undone d index message d' f e failed stays = cc

  start_over-Undone :
      (d d0 : Delivery k) (index : ℕ) (s : Step) (update : OrderUpdateRecordV6)
      (error restore_error : String) (initial : Result String k.State)
      → Undone d index (start_over k texts steps d0 index s update error restore_error initial)
  start_over-Undone d d0 index s update error restore_error (err message) =
      err-Undone d index message
  start_over-Undone d d0 index s update error restore_error (ok initial) =
      left-Undone d _ index refl

  module _
      (codec : (state : k.State) (b : k.Snapshot)
        → k.encode state ≡ ok b
        → k.decode b ≡ ok state) where
    back-Undone :
        (d : Delivery k) (host : KernelHost) (unit : UpdateStart) (index : ℕ) (s : Step)
        (update : OrderUpdateRecordV6) (deferrable : Option KernelError) (error : String)
        (restored : Result String k.State)
        → restored ≡ ok d.kernel
        → Undone d index (
            back k texts steps
              (record d { host = restore host (save d.host); unit_start = some unit })
              index
              s
              update
              deferrable
              error
              restored)
    back-Undone d host unit index s update deferrable error (err message) h = cc
    back-Undone d host unit index s update deferrable error (ok restored) h =
        ok-Undone d _ index (ground arith)
          (noted-SameDecision d.host _ _ (same_decision d.host host))

    reacted-Undone :
        (d : Delivery k) (index : ℕ) (s : Step) (update : OrderUpdateRecordV6) (out_of_order : Bool)
        (unit : UpdateStart) (restored : Result String k.State)
        (ended : Option KernelError × KernelHost) (outcome : Result String (Unit {0}))
        (state : k.State)
        → failed_at d.failed index ≡ none
        → restored ≡ ok d.kernel
        → Undone d index (
            reacted k texts steps d index s update out_of_order
              (save d.host)
              unit
              restored
              ended
              (outcome, state))
    reacted-Undone d index s update out_of_order unit restored ended (ok done) state fresh h =
        delivered_ok-Undone d _ index fresh
    reacted-Undone d index s update out_of_order unit restored ended (err error) state fresh h =
        back-Undone d ended.1 unit index s update ended.0 error restored h

    delivered-Undone :
        (d : Delivery k) (index : ℕ) (s : Step) (update : OrderUpdateRecordV6) (out_of_order : Bool)
        (snapshot : Result String k.Snapshot)
        → failed_at d.failed index ≡ none
        → k.encode d.kernel ≡ snapshot
        → Undone d index (delivered k texts steps d index s update out_of_order snapshot)
    unfolding delivered
    delivered-Undone d index s update out_of_order (err error) fresh h =
        ok-Undone d _ index refl (noted-SameDecision d.host _ _ (unchanged d.host))
    delivered-Undone d index s update out_of_order (ok snapshot) fresh h =
        let outcome = k.on_update update d.kernel (begin_update d.host d.unit_start).1 in
        reacted-Undone d index s update out_of_order (begin_update d.host d.unit_start).0
          (k.decode snapshot) (end_update outcome.2) outcome.0 outcome.1 fresh
          (codec d.kernel snapshot h)

    if-Undone :
        (d : Delivery k) (index : ℕ) (b : Bool) (r r' : Result String (Delivery k))
        → Undone d index r
        → Undone d index r'
        → Undone d index (if b then r else r')
    if-Undone d index true r r' p q = p
    if-Undone d index false r r' p q = q

    -- An update that fails, without the loop being left, has changed neither the kernel nor the
    -- decision, if the kernel's codec restores what it encodes and the update had not failed before:
    -- held or refused a snapshot, it is not delivered, and otherwise the kernel and the host's
    -- finances, orders, commands, runner entries, rows and timer keys are back where they were.
    pub deliver_update-undone :
        (d d' : Delivery k) (index : ℕ) (s : Step) (update : OrderUpdateRecordV6) (f : Failure)
        → failed_at d.failed index ≡ none
        → deliver_update k texts steps d index s update ≡ ok d'
        → failed_at d'.failed index ≡ some f
        → d'.left ≡ false
        → (d'.kernel ≡ d.kernel) × SameDecision d.host d'.host
    unfolding deliver_update
    deliver_update-undone d d' index s update f fresh =
        if-Undone d index
          (is_out_of_order steps d.failed index && ltb (deferral s) max_delivery_deferrals) _ _
          (ok-Undone d _ index refl (noted-SameDecision d.host _ _ (unchanged d.host)))
          (delivered-Undone d index s update (is_out_of_order steps d.failed index)
            (k.encode d.kernel) fresh refl)
          d' f
