-- ===== src/Host/Outcomes.antt =====
-- Every call of a kernel has an effect that the admission knows
-- (native/strategy_core_v3/src/kernel_v6.rs).
use strategy_core.Common.{
  ℕ, ◌≡◌, refl, true, false, not, String, Option, List, [], ok, err, >>=-eq-ok, fail_if, ok_or,
  arith,
}
use strategy_core.Wire.Commands.{ExternalRequestKindV6, StrategyCommandV6, command_id}
use strategy_core.Wire.Text.{valid_identifier, valid_text}
use strategy_core.Wire.Request.{validate_command, validate_kind}
use strategy_core.Actions.{CancelTarget, WakeAtRequest, TimerHandle}
use strategy_core.Host.State.{KernelError, KernelHost}
use strategy_core.Host.Admission.{
  EncodedLen, Admitted, next_ordinal, push_command, issue_broker_command,
}
use strategy_core.Host.Orders.{denied, place}
use strategy_core.Host.Cancels.{find_target, cancel, cancel_all, cancel_everything}
use strategy_core.Host.Calls.{
  request, request_checked, request_room, request_http, request_command, check_timer_key, wake_at,
  cancel_timer, stop, output, Call, call, dropped, after, timer_key, epoch_ns, http_method_v6,
  bad_reason,
}
use strategy_core.Host.Effects.{Effect, IdsValid, denied-ok, place-placed}
use strategy_core.Host.Refusals.{
  Refuses, place-Refuses, cancel-Refuses, cancel_all-Refuses, request-Refuses, wake_at-Refuses,
  cancel_timer-Refuses, stop-Refuses,
}

module _ (len : EncodedLen) (h : KernelHost) where
  cancel-cancelled :
      (target : CancelTarget) (id : String) (h' : KernelHost)
      → cancel len h target ≡ ok (id, h')
      → Effect len h h'
  unfolding cancel
  cancel-cancelled target id h' e =
      let (n, had, next) = >>=-eq-ok (next_ordinal h) _ e in
      let ((found, entry), made, rest) =
        >>=-eq-ok (denied h (find_target h (h.context.ids.command_id n) target)) _ next in
      let (h1, out, last) = >>=-eq-ok (issue_broker_command len h _ _) _ rest in
      Effect.cancelled n target found entry h1 had (denied-ok h _ _ made) out (ground arith)

  cancel_all-everything :
      (id : String) (h' : KernelHost)
      → cancel_all len h ≡ ok (id, h')
      → cancel_everything len h ≡ ok (id, h')
  unfolding cancel_all
  cancel_all-everything id h' e = ground arith

  cancel_all-cancelled :
      (id : String) (h' : KernelHost) → cancel_all len h ≡ ok (id, h') → Effect len h h'
  unfolding cancel_everything
  cancel_all-cancelled id h' e =
      let (n, had, next) = >>=-eq-ok (next_ordinal h) _ (cancel_all-everything id h' e) in
      let (h1, out, last) = >>=-eq-ok (issue_broker_command len h _ _) _ next in
      Effect.all_cancelled n h1 had out (ground arith)

  request-valid :
      (kind : ExternalRequestKindV6) (target : String) (payload : List ℕ) (timeout n : ℕ)
      → request_checked h kind target payload timeout ≡ ok tt
      → IdsValid h.context.ids
      → validate_command (
          StrategyCommandV6.external_request
            (h.context.ids.command_id n)
            kind
            target
            payload
            timeout)
        ≡ ok tt
  unfolding request_checked validate_command validate_kind command_id
  request-valid kind target payload timeout n e ids = ground (arith, ids.commands n)

  request-pushed :
      (kind : ExternalRequestKindV6) (target : String) (payload : List ℕ) (timeout : ℕ)
      (id : String) (h' : KernelHost)
      → request len h kind target payload timeout ≡ ok (id, h')
      → Effect len h h'
  unfolding request command_id
  request-pushed kind target payload timeout id h' e =
      let (u, checked, e1) =
        >>=-eq-ok (denied h (request_checked h kind target payload timeout)) _ e in
      let (v, room, e2) = >>=-eq-ok (request_room h) _ e1 in
      let (n, had, e3) = >>=-eq-ok (next_ordinal h) _ e2 in
      let (h1, out, last) = >>=-eq-ok (push_command len h _) _ e3 in
      Effect.pushed n _ h1 h1.timer_keys had refl refl
        (request-valid kind target payload timeout n (denied-ok h _ _ checked)) out (ground arith)

  timer-valid :
      (key : String) (n at : ℕ)
      → check_timer_key h key ≡ ok tt
      → IdsValid h.context.ids
      → validate_command (
          StrategyCommandV6.schedule_timer
            (h.context.ids.command_id n)
            key
            at
            h.context.ids.timer_generation
            [])
        ≡ ok tt
  unfolding check_timer_key validate_command validate_kind command_id
  timer-valid key n at e ids = ground (arith, ids.commands n, ids.generation)

  wake_at-pushed :
      (r : WakeAtRequest) (handle : TimerHandle) (h' : KernelHost)
      → wake_at len h r ≡ ok (handle, h')
      → Effect len h h'
  unfolding wake_at command_id
  wake_at-pushed r handle h' e =
      let (u, checked, e1) = >>=-eq-ok (denied h (check_timer_key h (timer_key r))) _ e in
      let (n, had, e2) = >>=-eq-ok (next_ordinal h) _ e1 in
      let (at, found, e3) = >>=-eq-ok (denied h (ok_or (epoch_ns r.when) _)) _ e2 in
      let (h1, out, last) = >>=-eq-ok (push_command len h _) _ e3 in
      Effect.pushed n _ h1 h'.timer_keys had refl refl
        (timer-valid (timer_key r) n at (denied-ok h _ _ checked)) out (ground arith)

  drop-valid :
      (handle : TimerHandle) (n : ℕ)
      → check_timer_key h handle.key ≡ ok tt
      → valid_identifier handle.generation ≡ true
      → IdsValid h.context.ids
      → validate_command
          (StrategyCommandV6.cancel_timer (h.context.ids.command_id n) handle.key handle.generation)
        ≡ ok tt
  unfolding check_timer_key validate_command validate_kind command_id
  drop-valid handle n e g ids = ground (arith, ids.commands n)

  cancel_timer-pushed :
      (handle : TimerHandle) (h' : KernelHost) → cancel_timer len h handle ≡ ok h' → Effect len h h'
  unfolding cancel_timer command_id
  cancel_timer-pushed handle h' e =
      let (u, checked, e1) = >>=-eq-ok (denied h (check_timer_key h handle.key)) _ e in
      let (v, good, e2) =
        >>=-eq-ok (denied h (fail_if (not (valid_identifier handle.generation)) _)) _ e1 in
      let (n, had, e3) = >>=-eq-ok (next_ordinal h) _ e2 in
      let (h1, out, last) = >>=-eq-ok (push_command len h _) _ e3 in
      Effect.pushed n _ h1 h'.timer_keys had refl refl
        (drop-valid handle n (denied-ok h _ _ checked) (ground arith)) out (ground arith)

  stop-valid :
      (reason : String) (n : ℕ)
      → bad_reason reason ≡ false
      → IdsValid h.context.ids
      → validate_command (StrategyCommandV6.stop (h.context.ids.command_id n) reason) ≡ ok tt
  unfolding validate_command validate_kind command_id valid_text
  stop-valid reason n e ids = ground (arith, ids.commands n)

  stop-pushed : (reason : String) (h' : KernelHost) → stop len h reason ≡ ok h' → Effect len h h'
  unfolding stop command_id
  stop-pushed reason h' e =
      let (n, had, e1) = >>=-eq-ok (next_ordinal h) _ e in
      let (v, good, out) =
        >>=-eq-ok (denied h (fail_if (bad_reason reason) KernelError.invalid_stop_reason))
          (λ u. push_command len h (StrategyCommandV6.stop (h.context.ids.command_id n) reason))
          e1 in
      Effect.pushed n (StrategyCommandV6.stop (h.context.ids.command_id n) reason) h' h'.timer_keys
        had refl refl (stop-valid reason n (ground arith)) out refl

  after-Effect :
      (r : Admitted KernelHost)
      → ((h' : KernelHost) → r ≡ ok h' → Effect len h h')
      → Refuses h r
      → Effect len h (after r)
  after-Effect (ok h') caused refuses = caused h' refl
  after-Effect (err (m, h')) caused refuses =
      let (d, same, own) = refuses m h' refl in Effect.refused d same

  dropped-Effect :
      {A : Type 0} (r : Admitted (A × KernelHost))
      → ((a : A) (h' : KernelHost) → r ≡ ok (a, h') → Effect len h h')
      → Refuses h r
      → Effect len h (after (dropped r))
  dropped-Effect (ok (a, h')) caused refuses = caused a h' refl
  dropped-Effect (err (m, h')) caused refuses =
      let (d, same, own) = refuses m h' refl in Effect.refused d same

  request-Effect :
      (kind : ExternalRequestKindV6) (target : String) (payload : List ℕ) (timeout : ℕ)
      → Effect len h (after (dropped (request len h kind target payload timeout)))
  request-Effect kind target payload timeout =
      dropped-Effect (request len h kind target payload timeout)
        (request-pushed kind target payload timeout)
        (request-Refuses len h kind target payload timeout)

  -- Whatever a kernel calls, its host is refused the call or changed by one admitted effect.
  pub call-Effect :
      (price_micros : ℕ → Option ℕ) (c : Call) → Effect len h (after (call len price_micros h c))
  unfolding call output request_http request_command
  call-Effect price_micros (Call.place_order r) =
      dropped-Effect (place len price_micros h r) (place-placed len price_micros h r)
        (place-Refuses h len price_micros r)
  call-Effect price_micros (Call.cancel_order target) =
      dropped-Effect (cancel len h target) (cancel-cancelled target) (cancel-Refuses len h target)
  call-Effect price_micros Call.cancel_all_orders =
      dropped-Effect (cancel_all len h) cancel_all-cancelled (cancel_all-Refuses len h)
  call-Effect price_micros (Call.http r) =
      request-Effect (ExternalRequestKindV6.http (http_method_v6 r.method) r.path) r.endpoint r.body
        r.timeout_ms
  call-Effect price_micros (Call.command r) =
      request-Effect (ExternalRequestKindV6.command r.args) r.command r.stdin r.timeout_ms
  call-Effect price_micros (Call.wake r) =
      dropped-Effect (wake_at len h r) (wake_at-pushed r) (wake_at-Refuses len h r)
  call-Effect price_micros (Call.drop_timer handle) =
      after-Effect (cancel_timer len h handle) (cancel_timer-pushed handle)
        (cancel_timer-Refuses len h handle)
  call-Effect price_micros (Call.stop_strategy reason) =
      after-Effect (stop len h reason) (stop-pushed reason) (stop-Refuses len h reason)
  call-Effect price_micros (Call.log entry) = Effect.noted _ refl
  call-Effect price_micros (Call.telemetry entry) = Effect.noted _ refl
