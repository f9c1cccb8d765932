-- ===== src/Host/Fates.antt =====
-- What becomes of each output that `append_outputs` is given
-- (native/strategy_core_v3/src/kernel_v6.rs).
use Prim.Native.String
use strategy_core.Common.{ℕ, suc, ◌+◌, ◌≡◌, ◌⊎◌, true, String, List, [], ◌∷◌, ◌++◌}
use strategy_core.Wire.Results.{
  ResultEvidenceV6, ResultDiagnosticV6, TelemetryEntryV6, telemetry_is_valid,
}
use strategy_core.Updates.Records.{Failure}
use strategy_core.Host.State.{LogAction, HostOutput}
use strategy_core.Host.Append.{
  OutputCodec, Appended, max_result_diagnostic_bytes, into_bytes, truncate_utf8,
}

-- An output ends as a diagnostic, as evidence, as telemetry, or is lost with so many bytes.
pub data Fate : Type 0 where
  as_diagnostic : ResultDiagnosticV6 → Fate
  as_evidence : ResultEvidenceV6 → Fate
  as_telemetry : TelemetryEntryV6 → Fate
  lost : ℕ → Fate

-- The severity and the code that a failure is shown with.
pub data Shown : Failure → String → String → Type 0 where
  counted : Shown Failure.counted "error" "kernel_error"
  deferred : Shown Failure.deferred "warn" "order_update_deferred"
  held : Shown Failure.held "warn" "order_update_held"
  rolled_back : Shown Failure.rolled_back "warn" "order_update_rolled_back"

module _ (codec : OutputCodec) where
  -- The text of a log: its message, or the JSON of it all.
  abbrev pub TextOf : LogAction → String → Type 0
  TextOf entry text = (text ≡ entry.message) ⊎ (text ≡ codec.json entry)

  -- The fates that an output may have: what is kept of it carries its whole text, or the text cut to
  -- the bound if it is of an order update.
  pub data FateOf : HostOutput → Fate → Type 0 where
    log_diagnostic :
        (entry : LogAction) (severity text : String)
        → TextOf entry text
        → (severity ≡ entry.level) ⊎ (severity ≡ "info")
        → FateOf (HostOutput.log entry) (
            Fate.as_diagnostic
              (record { severity = severity; code = "kernel_log"; message = text }))
    log_evidence :
        (entry : LogAction) (text : String)
        → TextOf entry text
        → FateOf
            (HostOutput.log entry)
            (Fate.as_evidence (record { code = "kernel_log"; payload = into_bytes text }))
    log_lost :
        (entry : LogAction) (text : String)
        → TextOf entry text
        → FateOf (HostOutput.log entry) (Fate.lost (String.len text))
    error_diagnostic :
        (message severity code : String) (failure : Failure)
        → Shown failure severity code
        → FateOf (HostOutput.update_error message failure) (
            Fate.as_diagnostic (record {
              severity = severity;
              code = code;
              message = truncate_utf8 message max_result_diagnostic_bytes;
            }))
    error_lost :
        (message : String) (failure : Failure)
        → FateOf
            (HostOutput.update_error message failure)
            (Fate.lost (String.len (truncate_utf8 message max_result_diagnostic_bytes)))
    warning_diagnostic :
        (code message : String)
        → FateOf (HostOutput.update_warning code message) (
            Fate.as_diagnostic (record {
              severity = "warn";
              code = code;
              message = truncate_utf8 message max_result_diagnostic_bytes;
            }))
    warning_lost :
        (code message : String)
        → FateOf
            (HostOutput.update_warning code message)
            (Fate.lost (String.len (truncate_utf8 message max_result_diagnostic_bytes)))
    kept_telemetry :
        (entry : TelemetryEntryV6)
        → telemetry_is_valid entry ≡ true
        → FateOf (HostOutput.telemetry entry) (Fate.as_telemetry entry)
    lost_telemetry :
        (entry : TelemetryEntryV6)
        → FateOf (HostOutput.telemetry entry) (Fate.lost (codec.entry_len entry))

  -- Each output has a fate, in order.
  abbrev pub FatesOf : List HostOutput → List Fate → Type 0
  FatesOf [] [] = Unit
  FatesOf [] (f ∷ fs) = ⊥
  FatesOf (o ∷ os) [] = ⊥
  FatesOf (o ∷ os) (f ∷ fs) = FateOf o f × FatesOf os fs

-- What the fates add to a result and to what is lost, in order.
abbrev pub diagnostics_of : List Fate → List ResultDiagnosticV6
diagnostics_of [] = []
diagnostics_of (Fate.as_diagnostic d ∷ fs) = d ∷ diagnostics_of fs
diagnostics_of (Fate.as_evidence e ∷ fs) = diagnostics_of fs
diagnostics_of (Fate.as_telemetry t ∷ fs) = diagnostics_of fs
diagnostics_of (Fate.lost bytes ∷ fs) = diagnostics_of fs

abbrev pub evidence_of : List Fate → List ResultEvidenceV6
evidence_of [] = []
evidence_of (Fate.as_diagnostic d ∷ fs) = evidence_of fs
evidence_of (Fate.as_evidence e ∷ fs) = e ∷ evidence_of fs
evidence_of (Fate.as_telemetry t ∷ fs) = evidence_of fs
evidence_of (Fate.lost bytes ∷ fs) = evidence_of fs

abbrev pub telemetry_of : List Fate → List TelemetryEntryV6
telemetry_of [] = []
telemetry_of (Fate.as_diagnostic d ∷ fs) = telemetry_of fs
telemetry_of (Fate.as_evidence e ∷ fs) = telemetry_of fs
telemetry_of (Fate.as_telemetry t ∷ fs) = t ∷ telemetry_of fs
telemetry_of (Fate.lost bytes ∷ fs) = telemetry_of fs

abbrev pub lost_of : List Fate → ℕ × ℕ
lost_of [] = (0, 0)
lost_of (Fate.as_diagnostic d ∷ fs) = lost_of fs
lost_of (Fate.as_evidence e ∷ fs) = lost_of fs
lost_of (Fate.as_telemetry t ∷ fs) = lost_of fs
lost_of (Fate.lost bytes ∷ fs) = (suc (lost_of fs).0, bytes + (lost_of fs).1)

-- A state after another with some fates.
pub record Follows (fs : List Fate) (a a' : Appended) : Type 0 where
  pub diagnostics : a'.result.diagnostics ≡ a.result.diagnostics ++ diagnostics_of fs
  pub evidence : a'.result.evidence ≡ a.result.evidence ++ evidence_of fs
  pub telemetry : a'.result.telemetry ≡ a.result.telemetry ++ telemetry_of fs
  pub lost : a'.overflow.lost ≡ a.overflow.lost + (lost_of fs).0
  pub lost_bytes : a'.overflow.lost_bytes ≡ a.overflow.lost_bytes + (lost_of fs).1
