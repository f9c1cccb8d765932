-- ===== src/Host/Refusals.antt =====
-- What a refused call leaves of its host (native/strategy_core_v3/src/kernel_v6.rs).
use strategy_core.Common.{
  ℕ, ◌⊎◌, inl, inr, length, if◌then◌else◌, ◌≡◌, refl, Bool, true, false, String, Option, none, some,
  List, Result, ok, err, ◌>>=◌, fail_if, ok_or, arith, not,
}
use strategy_core.Wire.Orders.{RunnerEntryV6}
use strategy_core.Wire.Commands.{StrategyCommandV6, ExternalRequestKindV6}
use strategy_core.Actions.{PlaceOrderRequest, CancelTarget, WakeAtRequest, TimerHandle}
use strategy_core.Wire.Text.{valid_identifier}
use strategy_core.Host.State.{KernelError, KernelHost}
use strategy_core.Host.Admission.{
  EncodedLen, Admitted, capacity_error, next_ordinal, check_result_bytes, push_command,
  issue_broker_command,
}
use strategy_core.Host.Orders.{denied, prepared, place}
use strategy_core.Host.Cancels.{find_target, cancel, cancel_all, cancel_everything}
use strategy_core.Host.Calls.{
  request, request_checked, request_room, request_http, request_command, check_timer_key, wake_at,
  cancel_timer, stop, Call, call, dropped, timer_key, epoch_ns, http_method_v6, bad_reason,
}

-- A refusal keeps what defers the update, clears it, or makes it its own message.
abbrev pub Deferral : KernelError → Option KernelError → Option KernelError → Type 0
Deferral m d d' = (d' ≡ d) ⊎ ((d' ≡ none) ⊎ (d' ≡ some m))

-- A refusal changes what defers the update at most.
abbrev pub Refusal : KernelError → KernelHost → KernelHost → Type 0
Refusal m h h' =
    (d : Option KernelError) × (h' ≡ record h { deferrable = d }) × Deferral m h.deferrable d

module _ (h : KernelHost) where
  abbrev pub Refuses : {A : Type 0} → Admitted A → Type 0
  Refuses r = (m : KernelError) (h' : KernelHost) → r ≡ err (m, h') → Refusal m h h'

  pub bind-Refuses :
      {A B : Type 0} (r : Admitted A) (next : A → Admitted B)
      → Refuses r
      → ((a : A) → Refuses (next a))
      → Refuses (r >>= next)
  bind-Refuses (ok a) next first rest m h' e = rest a m h' e
  bind-Refuses (err failure) next first rest m h' e = first m h' (ground arith)

  pub ok-Refuses : {A : Type 0} (a : A) → Refuses (ok a)
  ok-Refuses a m h' e = cc

  pub denied-Refuses : {A : Type 0} (r : Result KernelError A) → Refuses (denied h r)
  denied-Refuses (ok a) m h' e = cc
  denied-Refuses (err n) m h' e = (h.deferrable, ground arith, inl refl)

  pub capacity_error-Refuses :
      {A : Type 0} (n : KernelError) (alone : Bool) → Refuses (capacity_error {A = A} h n alone)
  unfolding capacity_error
  capacity_error-Refuses n alone m h' e = (h'.deferrable, ground arith, inr (ground arith))

  pub if-Refuses :
      {A : Type 0} (b : Bool) (r s : Admitted A)
      → Refuses r
      → Refuses s
      → Refuses (if b then r else s)
  if-Refuses true r s p q = p
  if-Refuses false r s p q = q

  pub next_ordinal-Refuses : Refuses (next_ordinal h)
  unfolding next_ordinal
  next_ordinal-Refuses =
      if-Refuses _ _ _ (capacity_error-Refuses _ _) (ok-Refuses (length h.commands))

  pub check_result_bytes-Refuses :
      (len : EncodedLen) (c : StrategyCommandV6) (e : Option RunnerEntryV6)
      → Refuses (check_result_bytes len h c e)
  unfolding check_result_bytes
  check_result_bytes-Refuses len c e = if-Refuses _ _ _ (capacity_error-Refuses _ _) (ok-Refuses tt)

  pub push_command-Refuses :
      (len : EncodedLen) (c : StrategyCommandV6) → Refuses (push_command len h c)
  unfolding push_command
  push_command-Refuses len c =
      bind-Refuses _ _ (check_result_bytes-Refuses len c none) (λ _. ok-Refuses _)

  pub issue_broker_command-Refuses :
      (len : EncodedLen) (c : StrategyCommandV6) (e : RunnerEntryV6)
      → Refuses (issue_broker_command len h c e)
  unfolding issue_broker_command
  issue_broker_command-Refuses len c e =
      bind-Refuses _ _ (check_result_bytes-Refuses len c (some e)) λ _.
        if-Refuses _ _ _ (capacity_error-Refuses _ _) (
          if-Refuses _ _ _ (denied-Refuses {A = KernelHost} (err KernelError.too_many_entries))
            (ok-Refuses _))

  pub place-Refuses :
      (len : EncodedLen) (price_micros : ℕ → Option ℕ) (request : PlaceOrderRequest)
      → Refuses (place len price_micros h request)
  unfolding place
  place-Refuses len price_micros request = bind-Refuses _ _ next_ordinal-Refuses λ n.
      bind-Refuses _ _ (denied-Refuses (prepared price_micros h n request))
        λ made. bind-Refuses _ _ (issue_broker_command-Refuses len _ _) λ issued. ok-Refuses _

module _ (len : EncodedLen) (h : KernelHost) where
  pub cancel-Refuses : (target : CancelTarget) → Refuses h (cancel len h target)
  unfolding cancel
  cancel-Refuses target = bind-Refuses h _ _ (next_ordinal-Refuses h) λ n.
      bind-Refuses h _ _ (denied-Refuses h (find_target h (h.context.ids.command_id n) target))
        λ made. bind-Refuses h _ _ (issue_broker_command-Refuses h len _ _) λ issued. ok-Refuses h _

  pub cancel_everything-Refuses : Refuses h (cancel_everything len h)
  unfolding cancel_everything
  cancel_everything-Refuses =
      bind-Refuses h _ _ (next_ordinal-Refuses h)
        λ n. bind-Refuses h _ _ (issue_broker_command-Refuses h len _ _) λ issued. ok-Refuses h _

  pub cancel_all-Refuses : Refuses h (cancel_all len h)
  unfolding cancel_all
  cancel_all-Refuses =
      if-Refuses h _ _ _ (denied-Refuses h (err KernelError.truncated_orders))
        cancel_everything-Refuses

  pub request_room-Refuses : Refuses h (request_room h)
  unfolding request_room
  request_room-Refuses = if-Refuses h _ _ _ (capacity_error-Refuses h _ _) (ok-Refuses h tt)

  pub request-Refuses :
      (kind : ExternalRequestKindV6) (target : String) (payload : List ℕ) (timeout : ℕ)
      → Refuses h (request len h kind target payload timeout)
  unfolding request
  request-Refuses kind target payload timeout =
      bind-Refuses h _ _ (denied-Refuses h (request_checked h kind target payload timeout)) λ _.
        bind-Refuses h _ _ request_room-Refuses λ _.
          bind-Refuses h _ _ (next_ordinal-Refuses h)
            λ n. bind-Refuses h _ _ (push_command-Refuses h len _) λ pushed. ok-Refuses h _

  pub wake_at-Refuses : (r : WakeAtRequest) → Refuses h (wake_at len h r)
  unfolding wake_at
  wake_at-Refuses r = bind-Refuses h _ _ (denied-Refuses h (check_timer_key h (timer_key r))) λ _.
      bind-Refuses h _ _ (next_ordinal-Refuses h) λ n.
        bind-Refuses h _ _ (denied-Refuses h (ok_or (epoch_ns r.when) _))
          λ at. bind-Refuses h _ _ (push_command-Refuses h len _) λ pushed. ok-Refuses h _

  pub cancel_timer-Refuses : (handle : TimerHandle) → Refuses h (cancel_timer len h handle)
  unfolding cancel_timer
  cancel_timer-Refuses handle =
      bind-Refuses h _ _ (denied-Refuses h (check_timer_key h handle.key)) λ _.
        bind-Refuses h _ _ (denied-Refuses h (fail_if (not (valid_identifier handle.generation)) _))
          λ _.
            bind-Refuses h _ _ (next_ordinal-Refuses h)
              λ n. bind-Refuses h _ _ (push_command-Refuses h len _) λ pushed. ok-Refuses h _

  pub stop-Refuses : (reason : String) → Refuses h (stop len h reason)
  unfolding stop
  stop-Refuses reason = bind-Refuses h _ _ (next_ordinal-Refuses h) λ n.
      bind-Refuses h _ _
        (denied-Refuses h (fail_if (bad_reason reason) KernelError.invalid_stop_reason))
        λ _. push_command-Refuses h len _

  dropped-Refuses :
      {A : Type 0} (r : Admitted (A × KernelHost)) → Refuses h r → Refuses h (dropped r)
  dropped-Refuses r refuses = bind-Refuses h r _ refuses λ a. ok-Refuses h a.1

  -- A call that is refused changes nothing of its host but what defers the order update, which it
  -- keeps, clears, or makes the very message that it returns.
  pub call-Refuses :
      (price_micros : ℕ → Option ℕ) (c : Call) (m : KernelError) (h' : KernelHost)
      → call len price_micros h c ≡ err (m, h')
      → (d : Option KernelError) × (h' ≡ record h { deferrable = d })
        × ((d ≡ h.deferrable) ⊎ ((d ≡ none) ⊎ (d ≡ some m)))
  unfolding call request_http request_command
  call-Refuses price_micros (Call.place_order r) =
      dropped-Refuses _ (place-Refuses h len price_micros r)
  call-Refuses price_micros (Call.cancel_order target) = dropped-Refuses _ (cancel-Refuses target)
  call-Refuses price_micros Call.cancel_all_orders = dropped-Refuses _ cancel_all-Refuses
  call-Refuses price_micros (Call.http r) =
      dropped-Refuses
        (request len h (ExternalRequestKindV6.http (http_method_v6 r.method) r.path) r.endpoint
          r.body r.timeout_ms)
        (request-Refuses (ExternalRequestKindV6.http (http_method_v6 r.method) r.path) r.endpoint
          r.body r.timeout_ms)
  call-Refuses price_micros (Call.command r) =
      dropped-Refuses
        (request len h (ExternalRequestKindV6.command r.args) r.command r.stdin r.timeout_ms)
        (request-Refuses (ExternalRequestKindV6.command r.args) r.command r.stdin r.timeout_ms)
  call-Refuses price_micros (Call.wake r) = dropped-Refuses _ (wake_at-Refuses r)
  call-Refuses price_micros (Call.drop_timer handle) = cancel_timer-Refuses handle
  call-Refuses price_micros (Call.stop_strategy reason) = stop-Refuses reason
  call-Refuses price_micros (Call.log entry) = ok-Refuses h _
  call-Refuses price_micros (Call.telemetry entry) = ok-Refuses h _
