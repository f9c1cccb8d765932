-- ===== src/Host/Appended.antt =====
-- `append_outputs` of native/strategy_core_v3/src/kernel_v6.rs, over all outputs of a decision.
use Prim.Native.String
use strategy_core.Common.{
  ℕ, suc, ◌+◌, ◌-◌, ◌≤◌, ◌<◌, ◌≡◌, refl, sym, max, Bool, true, false, ◌&&◌, String, Option, none,
  some, List, [], ◌∷◌, ◌++◌, map_or, length, length-append, leb, ltb, arith, if◌then◌else◌,
}
use mathlib.Core.List.{append-nil}
use strategy_core.Wire.Bounds.{result_encoded_budget_bytes}
use strategy_core.Wire.Results.{
  ResultDiagnosticV6, TelemetryEntryV6, DecisionResultV6, telemetry_is_valid,
}
use strategy_core.Host.State.{HostOutput}
use strategy_core.Host.Fit.{Overflow}
use strategy_core.Host.Shed.{bare}
use strategy_core.Host.Append.{
  OutputCodec, Appended, max_result_evidence, max_result_telemetry, max_telemetry_bytes,
  max_result_diagnostic_bytes, result_overhead_bytes, diagnostic_room, into_bytes, append_log,
  append_update, append_telemetry, append_output, append_each, append_error, append_outputs,
  failure_code, error_diagnostic, valid_level, log_message, truncate_utf8,
  max_evidence_payload_bytes,
}
use strategy_core.Common.{◌∙◌, ap}
use strategy_core.Host.Fates.{Fate, FatesOf, diagnostics_of, evidence_of, telemetry_of, lost_of}
use strategy_core.Host.Fated.{append_each-Fates}
use strategy_core.Host.Appends.{
  Grows, Extends, Extends-trans, entries, diagnostic_bytes, telemetry_len, Grows-refl, Grows-trans,
  lost_one-Grows, diagnosed-Grows, evidenced-Grows, measured-Grows,
}

all_three : (p : Bool) (a b c d : ℕ) → p && ltb a b && leb c d ≡ true → (a < b) × (c ≤ d)
all_three p a b c d h = (ground arith, ground arith)

all_four :
    (p : Bool) (a b c d e f : ℕ)
    → p && ltb a b && leb c d && leb e f ≡ true
    → (a < b) × (c ≤ d) × (e ≤ f)
all_four p a b c d e f h = (ground arith, ground arith, ground arith)

module _ (codec : OutputCodec) where
  if-Grows :
      (a : Appended) (b : Bool) (x y : Appended)
      → (b ≡ true → Grows codec 1 a x)
      → Grows codec 1 a y
      → Grows codec 1 a (if b then x else y)
  if-Grows a true x y g h = g refl
  if-Grows a false x y g h = h

  append_log-Grows :
      (a : Appended) (severity message : String) → Grows codec 1 a (append_log a severity message)
  unfolding append_log
  append_log-Grows a severity message =
      let bytes = String.len message + 32 in
      let small = leb (String.len message) max_result_diagnostic_bytes in
      let payload = leb (String.len message) max_evidence_payload_bytes in
      let n = length a.result.diagnostics in
      let m = length a.result.evidence in
      if-Grows a (small && ltb n diagnostic_room && leb bytes a.room) _ _
        (λ h.
          let (space, fits) = all_three small n diagnostic_room bytes a.room h in
          diagnosed-Grows codec a
            (record { severity = severity; code = "kernel_log"; message = message }) space fits)
        (if-Grows a (payload && ltb m max_result_evidence && leb bytes a.room) _ _
          (λ h.
            evidenced-Grows codec a bytes
              (record { code = "kernel_log"; payload = into_bytes message })
              (all_three payload m max_result_evidence bytes a.room h).0)
          (lost_one-Grows codec a (String.len message)))

  append_update-Grows :
      (a : Appended) (severity code message : String)
      → Grows codec 1 a (append_update a severity code message)
  unfolding append_update
  append_update-Grows a severity code message =
      let bytes = String.len message + 32 in
      let n = length a.result.diagnostics in
      if-Grows a (ltb n diagnostic_room && leb bytes a.room) _ _
        (λ h.
          let (space, fits) = all_three true n diagnostic_room bytes a.room h in
          diagnosed-Grows codec a (record { severity = severity; code = code; message = message })
            space fits)
        (lost_one-Grows codec a (String.len message))

  append_telemetry-Grows :
      (a : Appended) (e : TelemetryEntryV6)
      → Grows codec 1 a (append_telemetry a (codec.entry_len e) e)
  unfolding append_telemetry
  append_telemetry-Grows a e =
      let bytes = codec.entry_len e in
      let n = length a.result.telemetry in
      let few = leb (a.telemetry_bytes + bytes) max_telemetry_bytes in
      let valid = telemetry_is_valid e in
      if-Grows a (valid && ltb n max_result_telemetry && few && leb bytes a.room) _ _
        (λ h.
          let (space, under, fits) =
            all_four valid n max_result_telemetry (a.telemetry_bytes + bytes) max_telemetry_bytes
              bytes a.room h in
          measured-Grows codec a e space under fits)
        (lost_one-Grows codec a bytes)

  append_output-Grows : (a : Appended) (o : HostOutput) → Grows codec 1 a (append_output codec a o)
  unfolding append_output
  append_output-Grows a (HostOutput.log entry) =
      append_log-Grows a (if valid_level entry.level then entry.level else "info")
        (log_message codec entry)
  append_output-Grows a (HostOutput.update_error message failure) =
      append_update-Grows a (failure_code failure).0 (failure_code failure).1
        (truncate_utf8 message max_result_diagnostic_bytes)
  append_output-Grows a (HostOutput.update_warning code message) =
      append_update-Grows a "warn" code (truncate_utf8 message max_result_diagnostic_bytes)
  append_output-Grows a (HostOutput.telemetry entry) = append_telemetry-Grows a entry

  append_each-Grows :
      (outputs : List HostOutput) (a : Appended)
      → Grows codec (length outputs) a (append_each codec a outputs)
  unfolding append_each
  append_each-Grows [] a = Grows-refl codec a
  append_each-Grows (o ∷ outputs) a =
      Grows-trans codec 1 (length outputs) (suc (length outputs)) a (append_output codec a o) _
        (omega arith) (append_output-Grows a o)
        (append_each-Grows outputs (append_output codec a o))

  -- The diagnostic of the kernel's error.
  abbrev pub errors_of : Option String → List ResultDiagnosticV6
  errors_of none = []
  errors_of (some error) = error_diagnostic error ∷ []

  -- What a decision's outputs, and its kernel's error if any, add to its result: the bytes of the room
  -- that the result leaves in the budget hold the diagnostics of the outputs and the telemetry.
  pub record Adds (outputs : List HostOutput) (error : Option String) (r : DecisionResultV6)
      (outcome : DecisionResultV6 × Overflow) : Type 0 where
    pub rest : bare outcome.0 ≡ bare r
    pub evidence : Extends r.evidence outcome.0.evidence
    pub telemetry : Extends r.telemetry outcome.0.telemetry
    pub diagnostics : Extends r.diagnostics outcome.0.diagnostics
    pub fates :
        (fates : List Fate) × FatesOf codec outputs fates
        × (outcome.0.evidence ≡ r.evidence ++ evidence_of fates)
        × (outcome.0.telemetry ≡ r.telemetry ++ telemetry_of fates)
        × (outcome.0.diagnostics ≡ r.diagnostics ++ diagnostics_of fates ++ errors_of error)
        × (outcome.1.lost ≡ (lost_of fates).0)
        × (outcome.1.lost_bytes ≡ (lost_of fates).1)
    pub counted :
        outcome.1.lost + entries outcome.0 ≡ entries r + length outputs + map_or error 0 (λ e. 1)
    pub evidence_bound : length outcome.0.evidence ≤ max (length r.evidence) max_result_evidence
    pub telemetry_bound : length outcome.0.telemetry ≤ max (length r.telemetry) max_result_telemetry
    pub diagnostics_bound :
        length outcome.0.diagnostics
        ≤ max (length r.diagnostics) diagnostic_room + map_or error 0 (λ e. 1)
    pub measured_bound :
        telemetry_len codec outcome.0.telemetry
        ≤ telemetry_len codec r.telemetry + max_telemetry_bytes
    pub room :
        (kept : List ResultDiagnosticV6) × (errors : List ResultDiagnosticV6)
        × (outcome.0.diagnostics ≡ kept ++ errors)
        × (length errors ≡ map_or error 0 (λ e. 1))
        × (diagnostic_bytes kept + telemetry_len codec outcome.0.telemetry
            ≤ diagnostic_bytes r.diagnostics
              + telemetry_len codec r.telemetry
              + (result_encoded_budget_bytes - codec.result_len r - result_overhead_bytes))

  begun_with : DecisionResultV6 → Appended
  begun_with r = record {
    result = r;
    room = result_encoded_budget_bytes - codec.result_len r - result_overhead_bytes;
    telemetry_bytes = 0;
    overflow = record { lost = 0; lost_bytes = 0 };
  }

  -- Whatever a decision puts out: each output, in order, is added as a diagnostic, as evidence or as
  -- telemetry with its own text or entry (an order update's text cut to the bound), or is lost and
  -- counted with its bytes; after them comes the kernel's error, if any. Nothing that the result held
  -- is removed or changed; evidence, telemetry and diagnostics stay within their bounds, with a
  -- diagnostic's room left for the overflow, or are as many as before; and the bytes of the telemetry
  -- and of the outputs' diagnostics fit what the result leaves of the encoded budget.
  pub append_outputs-Adds :
      (outputs : List HostOutput) (error : Option String) (r : DecisionResultV6)
      → Adds outputs error r (append_outputs codec outputs error r)
  unfolding append_outputs begun_with
  append_outputs-Adds outputs none r =
      let g = append_each-Grows outputs (begun_with r) in
      let (fates, each, f) = append_each-Fates codec outputs (begun_with r) in
      let kept = (append_each codec (begun_with r) outputs).result.diagnostics in
      record {
        rest = g.rest;
        evidence = g.evidence;
        telemetry = g.telemetry;
        diagnostics = g.diagnostics;
        fates = (
          fates,
          each,
          f.evidence,
          f.telemetry,
          f.diagnostics ∙ sym (append-nil (r.diagnostics ++ diagnostics_of fates)),
          omega (arith, f.lost),
          omega (arith, f.lost_bytes),
        );
        counted = omega (arith, g.counted);
        evidence_bound = g.evidence_bound;
        telemetry_bound = g.telemetry_bound;
        diagnostics_bound = omega (arith, g.diagnostics_bound);
        measured_bound = omega (arith, g.measured, g.measured_bound);
        room = (kept, [], sym (append-nil kept), refl, omega (arith, g.room));
      }
  append_outputs-Adds outputs (some error) r =
      let g = append_each-Grows outputs (begun_with r) in
      let (fates, each, f) = append_each-Fates codec outputs (begun_with r) in
      let a = append_each codec (begun_with r) outputs in
      let told = append_error codec a.result (some error) in
      let more = length-append a.result.diagnostics (error_diagnostic error ∷ []) in
      record {
        rest = g.rest;
        evidence = g.evidence;
        telemetry = g.telemetry;
        diagnostics =
            Extends-trans r.diagnostics a.result.diagnostics told.diagnostics g.diagnostics
              (error_diagnostic error ∷ [], refl);
        fates = (
          fates,
          each,
          f.evidence,
          f.telemetry,
          ap (λ ds. ds ++ error_diagnostic error ∷ []) f.diagnostics,
          omega (arith, f.lost),
          omega (arith, f.lost_bytes),
        );
        counted = omega (arith, g.counted, more);
        evidence_bound = g.evidence_bound;
        telemetry_bound = g.telemetry_bound;
        diagnostics_bound = omega (arith, g.diagnostics_bound, more);
        measured_bound = omega (arith, g.measured, g.measured_bound);
        room =
            (a.result.diagnostics, error_diagnostic error ∷ [], refl, refl, omega (arith, g.room));
      }
