-- ===== src/Host/Append.antt =====
-- The outputs of a decision in its result, within the result's bounds (`append_outputs` in
-- native/strategy_core_v3/src/kernel_v6.rs). The JSON text of a log and the encoded lengths are
-- parameters; counts of bytes are numbers, as the code's are below their saturation.
use Prim.Native.Char.{code}
use Prim.Native.String
use strategy_core.Common.{
  ℕ, ◌+◌, ◌-◌, ◌*◌, ◌/◌, ◌%◌, Bool, not, ◌&&◌, ◌||◌, String, Option, none, some, List, [], ◌∷◌,
  ◌++◌, length, str_eq, leb, ltb, if◌then◌else◌,
}
use strategy_core.Wire.Bounds.{result_encoded_budget_bytes}
use strategy_core.Wire.Results.{
  ResultEvidenceV6, ResultDiagnosticV6, TelemetryEntryV6, DecisionResultV6, telemetry_is_valid,
}
use strategy_core.Updates.Records.{Failure}
use strategy_core.Host.State.{LogAction, HostOutput}
use strategy_core.Host.Fit.{Overflow}

-- `MAX_RESULT_EVIDENCE`, `MAX_RESULT_DIAGNOSTICS` and `MAX_RESULT_TELEMETRY`
abbrev pub max_result_evidence : ℕ
max_result_evidence = 64

abbrev pub max_result_diagnostics : ℕ
max_result_diagnostics = 64

abbrev pub max_result_telemetry : ℕ
max_result_telemetry = 256

abbrev pub max_evidence_payload_bytes : ℕ
max_evidence_payload_bytes = 64 * 1024

abbrev pub max_result_diagnostic_bytes : ℕ
max_result_diagnostic_bytes = 4 * 1024

-- `MAX_TELEMETRY_BYTES` and `RESULT_OVERHEAD_BYTES`
abbrev pub max_telemetry_bytes : ℕ
max_telemetry_bytes = 256 * 1024

abbrev pub result_overhead_bytes : ℕ
result_overhead_bytes = 16 * 1024

-- Room for the kernel error and the overflow diagnostic.
abbrev pub diagnostic_room : ℕ
diagnostic_room = max_result_diagnostics - 2

-- The UTF-8 of a code point, and of a text (`into_bytes`).
abbrev pub utf8 : ℕ → List ℕ
utf8 c =
    if ltb c 128
    then c ∷ []
    else if ltb c 2048
    then (192 + c / 64) ∷ (128 + c % 64) ∷ []
    else if ltb c 65536
    then (224 + c / 4096) ∷ (128 + c / 64 % 64) ∷ (128 + c % 64) ∷ []
    else (240 + c / 262144) ∷ (128 + c / 4096 % 64) ∷ (128 + c / 64 % 64) ∷ (128 + c % 64) ∷ []

abbrev pub into_bytes : String → List ℕ
into_bytes String.[] = []
into_bytes (String.◌∷◌ c s) = utf8 (code c) ++ into_bytes s

-- The characters that are whole within so many bytes.
abbrev pub whole_within : ℕ → String → String
whole_within room String.[] = String.[]
whole_within room (String.◌∷◌ c s) =
    let width = length (utf8 (code c)) in
    let rest = whole_within (room - width) s in
    if leb width room then String.◌∷◌ c rest else String.[]

abbrev pub truncate_utf8 : String → ℕ → String
truncate_utf8 value max_bytes =
    if ltb max_bytes (String.len value) then whole_within max_bytes value else value

-- What is written and measured of outputs.
pub record OutputCodec : Type 0 where
  pub json : LogAction → String
  pub entry_len : TelemetryEntryV6 → ℕ
  pub result_len : DecisionResultV6 → ℕ

-- The result so far, the bytes left, the bytes of telemetry, and what is lost.
pub record Appended : Type 0 where
  pub result : DecisionResultV6
  pub room : ℕ
  pub telemetry_bytes : ℕ
  pub overflow : Overflow

abbrev pub valid_level : String → Bool
valid_level level =
    str_eq level "error" || str_eq level "warn" || str_eq level "info" || str_eq level "debug"

abbrev pub lost_one : Appended → ℕ → Appended
lost_one a bytes = record a {
  overflow = record { lost = a.overflow.lost + 1; lost_bytes = a.overflow.lost_bytes + bytes };
}

abbrev pub diagnosed : Appended → ℕ → ResultDiagnosticV6 → Appended
diagnosed a bytes diagnostic = record a {
  result = record a.result { diagnostics = a.result.diagnostics ++ diagnostic ∷ [] };
  room = a.room - bytes;
}

abbrev pub evidenced : Appended → ℕ → ResultEvidenceV6 → Appended
evidenced a bytes evidence = record a {
  result = record a.result { evidence = a.result.evidence ++ evidence ∷ [] };
  room = a.room - bytes;
}

abbrev pub measured : Appended → ℕ → TelemetryEntryV6 → Appended
measured a bytes entry = record a {
  result = record a.result { telemetry = a.result.telemetry ++ entry ∷ [] };
  room = a.room - bytes;
  telemetry_bytes = a.telemetry_bytes + bytes;
}

-- A log, as a diagnostic, as evidence or lost.
unfoldable pub append_log : Appended → String → String → Appended
append_log a severity message =
    let bytes = String.len message + 32 in
    if leb (String.len message) max_result_diagnostic_bytes
      && ltb (length a.result.diagnostics) diagnostic_room
      && leb bytes a.room
    then diagnosed a bytes (record { severity = severity; code = "kernel_log"; message = message })
    else if leb (String.len message) max_evidence_payload_bytes
        && ltb (length a.result.evidence) max_result_evidence
        && leb bytes a.room
    then evidenced a bytes (record { code = "kernel_log"; payload = into_bytes message })
    else lost_one a (String.len message)

-- The severity and the code of a failed update.
abbrev pub failure_code : Failure → String × String
failure_code Failure.counted = ("error", "kernel_error")
failure_code Failure.deferred = ("warn", "order_update_deferred")
failure_code Failure.held = ("warn", "order_update_held")
failure_code Failure.rolled_back = ("warn", "order_update_rolled_back")

-- A failed update or a warning, with its text cut to the bound.
unfoldable pub append_update : Appended → String → String → String → Appended
append_update a severity code message =
    if ltb (length a.result.diagnostics) diagnostic_room && leb (String.len message + 32) a.room
    then diagnosed a (String.len message + 32)
        (record { severity = severity; code = code; message = message })
    else lost_one a (String.len message)

unfoldable pub append_telemetry : Appended → ℕ → TelemetryEntryV6 → Appended
unfolding telemetry_is_valid
append_telemetry a bytes entry =
    if telemetry_is_valid entry
      && ltb (length a.result.telemetry) max_result_telemetry
      && leb (a.telemetry_bytes + bytes) max_telemetry_bytes
      && leb bytes a.room
    then measured a bytes entry
    else lost_one a bytes

abbrev pub error_diagnostic : String → ResultDiagnosticV6
error_diagnostic error = record {
  severity = "error";
  code = "kernel_error";
  message =
      truncate_utf8 (if str_eq error "" then "kernel error" else error) max_result_diagnostic_bytes;
}

module _ (codec : OutputCodec) where
  -- The message of a log: its own, or the JSON of it.
  abbrev pub log_message : LogAction → String
  log_message entry =
      if valid_level entry.level
        && not (str_eq entry.message "")
        && leb (String.len entry.message) max_result_diagnostic_bytes
      then entry.message
      else codec.json entry

  unfoldable pub append_output : Appended → HostOutput → Appended
  unfolding append_log append_update append_telemetry
  append_output a (HostOutput.log entry) =
      append_log a (if valid_level entry.level then entry.level else "info") (log_message entry)
  append_output a (HostOutput.update_error message failure) =
      let (severity, code) = failure_code failure in
      append_update a severity code (truncate_utf8 message max_result_diagnostic_bytes)
  append_output a (HostOutput.update_warning code message) =
      append_update a "warn" code (truncate_utf8 message max_result_diagnostic_bytes)
  append_output a (HostOutput.telemetry entry) = append_telemetry a (codec.entry_len entry) entry

  unfoldable pub append_each : Appended → List HostOutput → Appended
  unfolding append_output
  append_each a [] = a
  append_each a (output ∷ outputs) = append_each (append_output a output) outputs

  -- The kernel's error, after the outputs.
  abbrev pub append_error : DecisionResultV6 → Option String → DecisionResultV6
  append_error result none = result
  append_error result (some error) = record result {
    diagnostics = result.diagnostics ++ error_diagnostic error ∷ [];
  }

  -- `append_outputs`: the result, and what is lost.
  unfoldable pub append_outputs :
      List HostOutput → Option String → DecisionResultV6 → DecisionResultV6 × Overflow
  unfolding append_each
  append_outputs outputs error result =
      let appended =
        append_each
          (record {
            result = result;
            room = result_encoded_budget_bytes - codec.result_len result - result_overhead_bytes;
            telemetry_bytes = 0;
            overflow = record { lost = 0; lost_bytes = 0 };
          })
          outputs in
      (append_error appended.result error, appended.overflow)
