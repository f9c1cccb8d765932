-- ===== src/Host/Calls.antt =====
-- The other calls of a kernel's context: external requests, timers, stop, logs and telemetry, and
-- `emit` (native/strategy_core_v3/src/kernel_v6.rs). An entry of telemetry is a text.
use strategy_core.Common.{
  drop, ℕ, Bool, true, false, not, ◌&&◌, ◌||◌, String, Option, none, some, List, [], ◌∷◌, ◌++◌,
  Result, ok, err, ◌>>=◌, ◌>>◌, ok_or, fail_if, any, contains, count_if, is_some_and, str_eq, ltb,
  leb, ◌==◌, if◌then◌else◌,
}
use Prim.Native.String
use strategy_core.Common.Int.{ℤ, in_i64}
use strategy_core.Wire.Bounds.{
  max_external_request_timeout_ms, max_reason_bytes, max_outstanding_external_requests,
}
use strategy_core.Wire.Commands.{HttpMethodV6, ExternalRequestKindV6, StrategyCommandV6}
use strategy_core.Wire.Text.{Checked, codes, valid_identifier}
use strategy_core.Wire.Paths.{valid_http_path}
use strategy_core.Wire.Request.{validate_external_request}
use strategy_core.Fees.Schedule.{try_unsigned}
use strategy_core.Actions.{
  PlaceOrderRequest, CancelTarget, WakeAtRequest, TimerHandle, HttpMethod, HttpRequest,
  CommandRequest,
}
use strategy_core.Wire.Results.{TelemetryEntryV6}
use strategy_core.Host.State.{LogAction, KernelError, KernelHost, HostOutput}
use strategy_core.Host.Admission.{EncodedLen, Admitted, capacity_error, next_ordinal, push_command}
use strategy_core.Host.Orders.{denied, place}
use strategy_core.Host.Cancels.{cancel, cancel_all, insert_text}

-- `ExternalRequestKindV6::grant_prefix`
abbrev grant_prefix : ExternalRequestKindV6 → String
grant_prefix (ExternalRequestKindV6.http method path) = "http:"
grant_prefix (ExternalRequestKindV6.command args) = "command:"

-- `grant.strip_prefix(prefix) == Some(target)`, on the code points
abbrev grants : List ℕ → List ℕ → List ℕ → Bool
grants [] [] [] = true
grants [] (t ∷ target) (g ∷ grant) = t == g && grants [] target grant
grants (p ∷ prefix) target (g ∷ grant) = p == g && grants prefix target grant
grants _ _ _ = false

unfoldable pub grants_external_request : List String → ExternalRequestKindV6 → String → Bool
grants_external_request granted kind target =
    any (λ grant. grants (codes (grant_prefix kind)) (codes target) (codes grant)) granted

abbrev pub is_request : StrategyCommandV6 → Bool
is_request (StrategyCommandV6.external_request id kind target payload timeout) = true
is_request _ = false

abbrev bad_path : ExternalRequestKindV6 → Bool
bad_path (ExternalRequestKindV6.http method path) = not (valid_http_path path)
bad_path (ExternalRequestKindV6.command args) = false

abbrev is_err : Checked → Bool
is_err (ok valid) = false
is_err (err error) = true

-- The checks of a request before it takes room.
unfoldable pub request_checked :
    KernelHost → ExternalRequestKindV6 → String → List ℕ → ℕ → Result KernelError (Unit {0})
unfolding grants_external_request
request_checked h kind target payload timeout_ms =
    fail_if (not (grants_external_request h.context.external_requests kind target))
      (KernelError.request_not_granted (grant_prefix kind) target)
    >> (fail_if (timeout_ms == 0 || ltb max_external_request_timeout_ms timeout_ms)
          KernelError.request_timeout
        >> (fail_if (bad_path kind) KernelError.request_path
            >> fail_if (is_err (validate_external_request kind target payload timeout_ms))
                KernelError.request_bounds))

-- At most so many requests, which earlier updates may have taken.
unfoldable pub request_room : KernelHost → Admitted (Unit {0})
unfolding capacity_error
request_room h =
    if leb max_outstanding_external_requests (count_if is_request h.commands)
    then capacity_error h KernelError.too_many_requests (
        is_some_and h.update_start λ start.
          ltb (count_if is_request (drop start.commands h.commands))
            max_outstanding_external_requests)
    else ok tt

-- `KernelHost::request`: the request's id and the host.
unfoldable pub request :
    EncodedLen
    → KernelHost
    → ExternalRequestKindV6
    → String
    → List ℕ
    → ℕ
    → Admitted (String × KernelHost)
unfolding request_checked request_room
request len h kind target payload timeout_ms =
    denied h (request_checked h kind target payload timeout_ms)
    >> (request_room h
        >> (next_ordinal h >>= λ ordinal.
            let id = h.context.ids.command_id ordinal in
            push_command len h
              (StrategyCommandV6.external_request id kind target payload timeout_ms)
            >>= λ pushed. ok (id, pushed)))

abbrev pub http_method_v6 : HttpMethod → HttpMethodV6
http_method_v6 HttpMethod.get = HttpMethodV6.get
http_method_v6 HttpMethod.post = HttpMethodV6.post

unfoldable pub request_http : EncodedLen → KernelHost → HttpRequest → Admitted (String × KernelHost)
unfolding request
request_http len h r =
    request len h (ExternalRequestKindV6.http (http_method_v6 r.method) r.path) r.endpoint r.body
      r.timeout_ms

unfoldable pub request_command :
    EncodedLen → KernelHost → CommandRequest → Admitted (String × KernelHost)
unfolding request
request_command len h r =
    request len h (ExternalRequestKindV6.command r.args) r.command r.stdin r.timeout_ms

unfoldable pub check_timer_key : KernelHost → String → Result KernelError (Unit {0})
check_timer_key h key =
    fail_if (not h.context.timers) KernelError.timers_not_granted
    >> (fail_if (not (valid_identifier key)) (KernelError.invalid_timer_key key)
        >> fail_if (contains key h.timer_keys) (KernelError.timer_key_used key))

-- `DEFAULT_TIMER_KEY`
abbrev pub default_timer_key : String
default_timer_key = "kernel.wake"

abbrev pub timer_key : WakeAtRequest → String
timer_key r = elim r.name [ none ↦ default_timer_key | some name ↦ name ]

-- `when.timestamp_nanos_opt().and_then(|nanos| u64::try_from(nanos).ok())`
abbrev pub epoch_ns : ℤ → Option ℕ
epoch_ns when = if in_i64 when then try_unsigned when else none

abbrev pub keyed : KernelHost → String → KernelHost
keyed h key = record h { timer_keys = insert_text key h.timer_keys }

-- `KernelHost::wake_at`: the timer's handle and the host.
unfoldable pub wake_at :
    EncodedLen → KernelHost → WakeAtRequest → Admitted (TimerHandle × KernelHost)
unfolding check_timer_key
wake_at len h r =
    denied h (check_timer_key h (timer_key r))
    >> (next_ordinal h >>= λ ordinal.
        denied h (ok_or (epoch_ns r.when) KernelError.timer_outside_epoch) >>= λ at.
        let generation = h.context.ids.timer_generation in
        push_command len h (
          StrategyCommandV6.schedule_timer (h.context.ids.command_id ordinal) (timer_key r) at
            generation [])
        >>= λ pushed.
            ok (record { key = timer_key r; generation = generation }, keyed pushed (timer_key r)))

unfoldable pub cancel_timer : EncodedLen → KernelHost → TimerHandle → Admitted KernelHost
unfolding check_timer_key
cancel_timer len h handle =
    denied h (check_timer_key h handle.key)
    >> (denied h (
          fail_if (not (valid_identifier handle.generation))
            (KernelError.invalid_timer_generation handle.generation))
        >> (next_ordinal h >>= λ ordinal.
            push_command len h (
              StrategyCommandV6.cancel_timer (h.context.ids.command_id ordinal) handle.key
                handle.generation)
            >>= λ pushed. ok (keyed pushed handle.key)))

abbrev pub bad_reason : String → Bool
bad_reason reason = str_eq reason "" || ltb max_reason_bytes (String.len reason)

-- The stop of `emit`.
unfoldable pub stop : EncodedLen → KernelHost → String → Admitted KernelHost
stop len h reason = next_ordinal h >>= λ ordinal.
    denied h (fail_if (bad_reason reason) KernelError.invalid_stop_reason)
    >> push_command len h (StrategyCommandV6.stop (h.context.ids.command_id ordinal) reason)

-- A log or an entry of telemetry.
unfoldable pub output : KernelHost → HostOutput → KernelHost
output h o = record h { outputs = h.outputs ++ o ∷ [] }

-- What a kernel may call, by the context's methods and the actions of `emit`.
pub data Call : Type 0 where
  place_order : PlaceOrderRequest → Call
  cancel_order : CancelTarget → Call
  cancel_all_orders : Call
  http : HttpRequest → Call
  command : CommandRequest → Call
  wake : WakeAtRequest → Call
  drop_timer : TimerHandle → Call
  stop_strategy : String → Call
  log : LogAction → Call
  telemetry : TelemetryEntryV6 → Call

abbrev pub dropped : {A : Type 0} → Admitted (A × KernelHost) → Admitted KernelHost
dropped outcome = outcome >>= λ (value, h). ok h

-- A call, with the answer dropped.
unfoldable pub call : EncodedLen → (ℕ → Option ℕ) → KernelHost → Call → Admitted KernelHost
unfolding output
call len price_micros h (Call.place_order r) = dropped (place len price_micros h r)
call len price_micros h (Call.cancel_order target) = dropped (cancel len h target)
call len price_micros h Call.cancel_all_orders = dropped (cancel_all len h)
call len price_micros h (Call.http r) = dropped (request_http len h r)
call len price_micros h (Call.command r) = dropped (request_command len h r)
call len price_micros h (Call.wake r) = dropped (wake_at len h r)
call len price_micros h (Call.drop_timer handle) = cancel_timer len h handle
call len price_micros h (Call.stop_strategy reason) = stop len h reason
call len price_micros h (Call.log entry) = ok (output h (HostOutput.log entry))
call len price_micros h (Call.telemetry entry) = ok (output h (HostOutput.telemetry entry))

-- The host after a call, whether it is refused or not.
abbrev pub after : Admitted KernelHost → KernelHost
after (ok h) = h
after (err (message, h)) = h
