-- ===== src/Wire/Results.antt =====
-- A decision's result and what it carries, with the check of a telemetry entry
-- (native/strategy_core_v3/src/decision_v6.rs).
use Prim.Native.String
use strategy_core.Common.{ℕ, Bool, true, ◌&&◌, String, Option, List, [], ◌∷◌, length, leb}
use strategy_core.Common.Int.{ℤ}
use strategy_core.Wire.Bounds.{max_short_text_bytes, max_reason_bytes}
use strategy_core.Wire.Text.{valid_text}
use strategy_core.Wire.Orders.{RunnerSectionV6}
use strategy_core.Wire.Commands.{StrategyCommandV6}

-- `MAX_TELEMETRY_FIELDS`
abbrev pub max_telemetry_fields : ℕ
max_telemetry_fields = 32

pub data DecisionDispositionV6 : Type 0 where
  completed rejected : DecisionDispositionV6

pub record KernelCheckpointV6 : Type 0 where
  pub codec_profile : String
  pub codec_version : ℕ
  pub strategy_id : String
  pub strategy_profile : String
  pub profile_and_calculator_digest : String
  pub sequence : ℕ
  pub state : List ℕ
  pub runner : RunnerSectionV6
  pub state_sha256 : List ℕ

pub record ResultEvidenceV6 : Type 0 where
  pub code : String
  pub payload : List ℕ

pub record ResultDiagnosticV6 : Type 0 where
  pub severity : String
  pub code : String
  pub message : String

-- The value of an annotation; a float by its bits.
pub data AnnotationValueV6 : Type 0 where
  text : String → AnnotationValueV6
  integer : ℤ → AnnotationValueV6
  float_bits : ℕ → AnnotationValueV6
  boolean : Bool → AnnotationValueV6
  null : AnnotationValueV6

-- A counter and a gauge carry the bits of their value.
pub data TelemetryEntryV6 : Type 0 where
  counter gauge : String → ℕ → List (String × String) → TelemetryEntryV6
  annotation : String → AnnotationValueV6 → List (String × String) → TelemetryEntryV6

-- `TelemetryEntryV6::parts`
abbrev pub telemetry_parts : TelemetryEntryV6 → String × List (String × String)
telemetry_parts (TelemetryEntryV6.counter name bits fields) = (name, fields)
telemetry_parts (TelemetryEntryV6.gauge name bits fields) = (name, fields)
telemetry_parts (TelemetryEntryV6.annotation name value fields) = (name, fields)

abbrev pub fields_valid : List (String × String) → Bool
fields_valid [] = true
fields_valid ((key, value) ∷ fields) =
    valid_text key max_short_text_bytes
    && leb (String.len value) max_short_text_bytes
    && fields_valid fields

abbrev pub annotation_fits : TelemetryEntryV6 → Bool
annotation_fits (TelemetryEntryV6.annotation name (AnnotationValueV6.text value) fields) =
    leb (String.len value) max_reason_bytes
annotation_fits entry = true

-- `TelemetryEntryV6::is_valid`
unfoldable pub telemetry_is_valid : TelemetryEntryV6 → Bool
telemetry_is_valid entry =
    let (name, fields) = telemetry_parts entry in
    valid_text name max_short_text_bytes
    && leb (length fields) max_telemetry_fields
    && fields_valid fields
    && annotation_fits entry

pub record DecisionResultV6 : Type 0 where
  pub delivery_id : String
  pub sleeve_identity : String
  pub state_fence : String
  pub expected_broker_revision : ℕ
  pub disposition : DecisionDispositionV6
  pub kernel_checkpoint : Option KernelCheckpointV6
  pub commands : List StrategyCommandV6
  pub acknowledged_command_ids : List String
  pub evidence : List ResultEvidenceV6
  pub diagnostics : List ResultDiagnosticV6
  pub telemetry : List TelemetryEntryV6
