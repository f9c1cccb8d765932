-- ===== src/Tests/Fit.antt =====
-- The outputs of a sample result and its fitting, with an encoding that counts the entries.
use strategy_core.Common.{
  ◌+◌, ◌≡◌, refl, none, some, List, [], ◌∷◌, length, Result, ok, err, if◌then◌else◌, ltb, true,
}
use strategy_core.Wire.Text.{DecisionV6Error}
use strategy_core.Wire.Results.{
  DecisionDispositionV6, AnnotationValueV6, TelemetryEntryV6, ResultEvidenceV6, DecisionResultV6,
  telemetry_is_valid,
}
use strategy_core.Wire.Text.{valid_text}
use strategy_core.Updates.Records.{Failure}
use strategy_core.Host.State.{HostOutput}
use strategy_core.Host.Append.{OutputCodec, append_outputs}
use strategy_core.Host.Appended.{Adds, append_outputs-Adds}
use strategy_core.Host.Fit.{Overflow, ResultCodec, fit_result}
use strategy_core.Host.Fitted.{Outcome, fit_result-Ends}

abbrev sample_codec : ResultCodec
sample_codec = record {
  encode = λ r.
      if ltb 3 (length r.telemetry + length r.evidence + length r.diagnostics)
      then err DecisionV6Error.bound_exceeded
      else ok (1 ∷ []);
  entry_len = λ entry. 10;
  overflow_text = λ lost lost_bytes. "lost";
}

abbrev entry : TelemetryEntryV6
entry = TelemetryEntryV6.annotation "step" (AnnotationValueV6.text "why") (("key", "") ∷ [])

entry_valid : telemetry_is_valid entry ≡ true
unfolding telemetry_is_valid valid_text
entry_valid = refl

abbrev log_evidence : ResultEvidenceV6
log_evidence = record { code = "kernel_log"; payload = 1 ∷ 2 ∷ [] }

abbrev large : DecisionResultV6
large = record {
  delivery_id = "d1";
  sleeve_identity = "s1";
  state_fence = "f1";
  expected_broker_revision = 8;
  disposition = DecisionDispositionV6.completed;
  kernel_checkpoint = none;
  commands = [];
  acknowledged_command_ids = [];
  evidence = record log_evidence { code = "order_update" } ∷ log_evidence ∷ log_evidence ∷ [];
  diagnostics = [];
  telemetry = entry ∷ entry ∷ [];
}

abbrev no_loss : Overflow
no_loss = record { lost = 0; lost_bytes = 0 }

-- The telemetry and a log are lost.
fit_test :
    fit_result sample_codec large no_loss
    ≡ some (
        ok (record large {
          evidence = record log_evidence { code = "order_update" } ∷ log_evidence ∷ [];
          diagnostics =
              record { severity = "error"; code = "kernel_telemetry_overflow"; message = "lost" }
              ∷ [];
          telemetry = [];
        }))
unfolding fit_result
fit_test = refl

fit_result-Ends_example :
    (outcome : Result DecisionV6Error DecisionResultV6) × (fit_result sample_codec large no_loss
      ≡ some outcome)
    × Outcome sample_codec large no_loss outcome
fit_result-Ends_example = fit_result-Ends sample_codec large no_loss

abbrev output_codec : OutputCodec
output_codec = record { json = λ log. log.message; entry_len = λ entry. 10; result_len = λ r. 900 }

abbrev outputs : List HostOutput
outputs =
    HostOutput.telemetry entry
    ∷ HostOutput.log (record { level = "warn"; message = "late" })
    ∷ HostOutput.telemetry (TelemetryEntryV6.counter "" 0 [])
    ∷ HostOutput.update_error "order update of p1" Failure.held
    ∷ []

-- The entry with no name is lost.
append_test :
    (append_outputs output_codec outputs (some "") large).1 ≡ record { lost = 1; lost_bytes = 10 }
unfolding append_outputs valid_text
append_test = refl

append_outputs-Adds_example :
    Adds output_codec outputs (some "") large (append_outputs output_codec outputs (some "") large)
append_outputs-Adds_example = append_outputs-Adds output_codec outputs (some "") large
