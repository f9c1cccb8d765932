-- ===== src/Host/Delivered.antt =====
-- What the delivery of order updates keeps of a decision, whatever the kernel does and wherever it
-- fails (native/strategy_core_v3/src/kernel_v6.rs).
use strategy_core.Common.{
  ℕ, ◌+◌, ◌≤◌, ◌≡◌, refl, sym, subst, max, Bool, true, false, String, Option, none, some, List, [],
  ◌∷◌, length, All, Result, ok, err, ◌&&◌, ltb, arith, Option-cases, inl, inr, if◌then◌else◌,
}
use strategy_core.Wire.Bounds.{max_delivery_deferrals}
use strategy_core.Wire.Orders.{OrderUpdateRecordV6}
use strategy_core.Wire.Request.{validate_command}
use strategy_core.Updates.Records.{Failure, Step, deferral}
use strategy_core.Updates.Delivery.{step_at}
use strategy_core.Plan.Rows.{max_open_orders, open_orders}
use strategy_core.Host.State.{
  KernelHost, HostOutput, SavedDecision, UpdateStart, KernelError, save, restore, begin_update,
  end_update,
}
use strategy_core.Host.Admission.{EncodedLen}
use strategy_core.Host.Calls.{output}
use strategy_core.Host.Deliver.{
  Kernel, Texts, Delivery, is_out_of_order, delivered, deliver_update, start_over, back, reacted,
  deliver_step, deliver_unit, deliver_all, deliver,
}
use strategy_core.Host.Sound.{Numbered}
use strategy_core.Host.Called.{Begun, Called, begun, recorded, unit_begun, unit_ended, rolled_back}
use strategy_core.Host.Kept.{validate_command-Called, open_orders-Called}

module _ (len : EncodedLen) (price_micros : ℕ → Option ℕ) (first : KernelHost) (k : Kernel)
    (texts : Texts) (steps : List Step) where
  -- A kernel acts on its host through the calls alone.
  abbrev pub Acts : Type 0
  Acts =
      (update : OrderUpdateRecordV6) (state : k.State) (h : KernelHost)
      → Called len price_micros first h
      → Called len price_micros first (k.on_update update state h).2

  -- The host is reached by calls, and so is what is saved of it.
  record Kept (d : Delivery k) : Type 0 where
    host : Called len price_micros first d.host
    start :
        (saved : SavedDecision)
        → d.start ≡ some saved
        → (before : KernelHost) × Called len price_micros first before × (saved ≡ save before)

  abbrev Keeps : Result String (Delivery k) → Type 0
  Keeps r = (d : Delivery k) → r ≡ ok d → Kept d

  ok-same : (d d' : Delivery k) → ◌≡◌ {A = Result String (Delivery k)} (ok d) (ok d') → d ≡ d'
  ok-same d d' e = ground arith

  ok-Keeps : (d : Delivery k) → Kept d → Keeps (ok d)
  ok-Keeps d kept d' e = subst Kept (ok-same d d' e) kept

  err-Keeps : (message : String) → Keeps (err message)
  err-Keeps message d e = cc

  recorded-Kept :
      (d : Delivery k) (o : HostOutput) (failed : List (ℕ × Failure))
      → Kept d
      → Kept (record d { failed = failed; host = output d.host o })
  recorded-Kept d o failed kept = record { host = recorded d.host o kept.host; start = kept.start }

  went_back :
      (d : Delivery k)
      → Kept d
      → Called len price_micros first
          (elim d.start [ none ↦ d.host | some saved ↦ restore d.host saved ])
  went_back d kept = elim (Option-cases d.start) [
    | inl gone ↦ rw gone kept.host
    | inr (saved, there) ↦
        let (before, reached, same) = kept.start saved there in
        rw there (
          subst (λ x. Called len price_micros first (restore d.host x)) (sym same)
            (rolled_back d.host before kept.host reached))
  ]

  start_over-Keeps :
      (d : Delivery k) (index : ℕ) (s : Step) (update : OrderUpdateRecordV6)
      (error restore_error : String) (initial : Result String k.State)
      → Kept d
      → Keeps (start_over k texts steps d index s update error restore_error initial)
  start_over-Keeps d index s update error restore_error (err message) kept = err-Keeps message
  start_over-Keeps d index s update error restore_error (ok initial) kept =
      ok-Keeps _ (record { host = recorded _ _ (went_back d kept); start = λ saved none_left. cc })

  back-Keeps :
      (d : Delivery k) (index : ℕ) (s : Step) (update : OrderUpdateRecordV6)
      (deferrable : Option KernelError) (error : String) (restored : Result String k.State)
      → Kept d
      → Keeps (back k texts steps d index s update deferrable error restored)
  back-Keeps d index s update deferrable error (ok restored) kept = ok-Keeps _ (
      recorded-Kept (record d { kernel = restored }) _ _
        (record { host = kept.host; start = kept.start }))
  back-Keeps d index s update deferrable error (err restore_error) kept =
      start_over-Keeps d index s update error restore_error k.initial kept

  reacted-Keeps :
      (d : Delivery k) (index : ℕ) (s : Step) (update : OrderUpdateRecordV6) (out_of_order : Bool)
      (unit : UpdateStart) (restored : Result String k.State) (deferrable : Option KernelError)
      (h : KernelHost) (outcome : Result String (Unit {0})) (state : k.State)
      → Kept d
      → Called len price_micros first h
      → Keeps (
          reacted k texts steps d index s update out_of_order
            (save d.host)
            unit
            restored
            (deferrable, h)
            (outcome, state))
  reacted-Keeps d index s update true unit restored deferrable h (ok done) state kept reached =
      ok-Keeps _ (record { host = recorded h _ reached; start = kept.start })
  reacted-Keeps d index s update false unit restored deferrable h (ok done) state kept reached =
      ok-Keeps _ (record { host = reached; start = kept.start })
  reacted-Keeps d index s update out_of_order unit restored deferrable h (err error) state kept
        reached =
      back-Keeps (record d { host = restore h (save d.host); unit_start = some unit }) index s
        update deferrable error restored
        (record { host = rolled_back h d.host reached kept.host; start = kept.start })

  delivered-Keeps :
      (acts : Acts) (d : Delivery k) (index : ℕ) (s : Step) (update : OrderUpdateRecordV6)
      (out_of_order : Bool) (snapshot : Result String k.Snapshot)
      → Kept d
      → Keeps (delivered k texts steps d index s update out_of_order snapshot)
  unfolding delivered
  delivered-Keeps acts d index s update out_of_order (err error) kept =
      ok-Keeps _ (recorded-Kept d _ _ kept)
  delivered-Keeps acts d index s update out_of_order (ok snapshot) kept =
      let outcome = k.on_update update d.kernel (begin_update d.host d.unit_start).1 in
      reacted-Keeps d index s update out_of_order (begin_update d.host d.unit_start).0
        (k.decode snapshot) (end_update outcome.2).0 (end_update outcome.2).1 outcome.0 outcome.1
        kept
        (unit_ended outcome.2 (acts update d.kernel _ (unit_begun d.host d.unit_start kept.host)))

  if-Keeps :
      (b : Bool) (r r' : Result String (Delivery k))
      → Keeps r
      → Keeps r'
      → Keeps (if b then r else r')
  if-Keeps true r r' p q = p
  if-Keeps false r r' p q = q

  deliver_step-Keeps :
      (acts : Acts) (d : Delivery k) (index : ℕ) (found : Option Step)
      → Kept d
      → Keeps (deliver_step k texts steps d index found)
  unfolding deliver_update
  deliver_step-Keeps acts d index none kept = ok-Keeps d kept
  deliver_step-Keeps acts d index (some s) kept = elim (Option-cases s.update) [
    | inl nothing ↦ rw nothing (ok-Keeps d kept)
    | inr (update, there) ↦ rw there (
        if-Keeps (is_out_of_order steps d.failed index && ltb (deferral s) max_delivery_deferrals) _
          _ (ok-Keeps _ (recorded-Kept d _ _ kept))
          (delivered-Keeps acts d index s update (is_out_of_order steps d.failed index)
            (k.encode d.kernel) kept))
  ]

  -- What follows a part of the loop.
  then-Keeps :
      (r : Result String (Delivery k)) (next : Delivery k → Result String (Delivery k))
      → Keeps r
      → ((d : Delivery k) → Kept d → Keeps (next d))
      → Keeps (elim r [ err message ↦ err message | ok d ↦ next d ])
  then-Keeps (err message) next keeps rest = err-Keeps message
  then-Keeps (ok d) next keeps rest = rest d (keeps d refl)

  deliver_unit-Keeps :
      (acts : Acts) (unit : List ℕ) (d : Delivery k)
      → Kept d
      → Keeps (deliver_unit k texts steps d unit)
  unfolding deliver_unit
  deliver_unit-Keeps acts [] d kept = ok-Keeps d kept
  deliver_unit-Keeps acts (index ∷ unit) d kept = if-Keeps d.left _ _ (ok-Keeps d kept) (
      then-Keeps (deliver_step k texts steps d index (step_at steps index))
        (λ next. deliver_unit k texts steps next unit)
        (deliver_step-Keeps acts d index (step_at steps index) kept) (deliver_unit-Keeps acts unit))

  deliver_all-Keeps :
      (acts : Acts) (units : List (List ℕ)) (d : Delivery k)
      → Kept d
      → Keeps (deliver_all k texts steps d units)
  unfolding deliver_all
  deliver_all-Keeps acts [] d kept = ok-Keeps d kept
  deliver_all-Keeps acts (unit ∷ units) d kept =
      then-Keeps (deliver_unit k texts steps (record d { unit_start = none }) unit)
        (λ next. deliver_all k texts steps next units)
        (deliver_unit-Keeps acts unit (record d { unit_start = none })
          (record { host = kept.host; start = kept.start }))
        (deliver_all-Keeps acts units)

  deliver-Called :
      (acts : Acts) (state : k.State) (order : List (List ℕ)) (d : Delivery k)
      → deliver k texts steps state first order ≡ ok d
      → Called len price_micros first d.host
  unfolding deliver
  deliver-Called acts state order d e =
      (deliver_all-Keeps acts order _
        (record { host = begun; start = λ saved there. (first, begun, ground arith) }) d e).host

  -- Whatever kernel is given the updates, acting on its host through the calls alone, and
  -- wherever it fails: from a host as a decision begins with it (no command and no order of its
  -- own, valid ids, an order view of valid order ids, a commitment and a reservation of 64 bits),
  -- the host at the end of a delivery holds valid commands with the ids of their ordinals, and no
  -- more open orders than the mode's bound or than the Broker has.
  pub validate_command-deliver :
      (acts : Acts) (state : k.State) (order : List (List ℕ)) (d : Delivery k)
      → Begun first
      → deliver k texts steps state first order ≡ ok d
      → All (λ c. validate_command c ≡ ok tt) d.host.commands
        × Numbered first.context.ids 0 d.host.commands
        × (length d.host.provisional + open_orders first.broker
            ≤ max (open_orders first.broker) (max_open_orders first.context.deployment_mode))
  validate_command-deliver acts state order d b e =
      let reached = deliver-Called acts state order d e in
      let (valid, numbered) = validate_command-Called len price_micros first d.host b reached in
      (valid, numbered, (open_orders-Called len price_micros first d.host b reached).0)
