-- ===== src/Host/Fated.antt =====
-- Every output of `append_outputs` has a fate (native/strategy_core_v3/src/kernel_v6.rs).
use Prim.Native.String
use mathlib.Core.List.{append-nil, append_assoc}
use strategy_core.Common.{
  ℕ, ◌+◌, ◌≡◌, refl, sym, ap, ◌∙◌, ◌⊎◌, inl, inr, Bool, true, false, ◌&&◌, String, List, [], ◌∷◌,
  ◌++◌, leb, ltb, length, if◌then◌else◌, arith,
}
use strategy_core.Wire.Results.{
  ResultEvidenceV6, ResultDiagnosticV6, TelemetryEntryV6, telemetry_is_valid,
}
use strategy_core.Updates.Records.{Failure}
use strategy_core.Host.State.{LogAction, HostOutput}
use strategy_core.Host.Append.{
  OutputCodec, Appended, max_result_evidence, max_result_telemetry, max_telemetry_bytes,
  max_result_diagnostic_bytes, max_evidence_payload_bytes, diagnostic_room, into_bytes,
  truncate_utf8, lost_one, diagnosed, evidenced, measured, append_log, append_update,
  append_telemetry, append_output, append_each, valid_level, log_message, failure_code,
}
use strategy_core.Host.Fates.{
  Fate, as_diagnostic, as_evidence, as_telemetry, lost, Shown, TextOf, FateOf, FatesOf,
  diagnostics_of, evidence_of, telemetry_of, lost_of, Follows,
}

diagnostics_of-cons :
    (f : Fate) (fs : List Fate)
    → diagnostics_of (f ∷ fs) ≡ diagnostics_of (f ∷ []) ++ diagnostics_of fs
diagnostics_of-cons (as_diagnostic d) fs = refl
diagnostics_of-cons (as_evidence e) fs = refl
diagnostics_of-cons (as_telemetry t) fs = refl
diagnostics_of-cons (lost bytes) fs = refl

evidence_of-cons :
    (f : Fate) (fs : List Fate) → evidence_of (f ∷ fs) ≡ evidence_of (f ∷ []) ++ evidence_of fs
evidence_of-cons (as_diagnostic d) fs = refl
evidence_of-cons (as_evidence e) fs = refl
evidence_of-cons (as_telemetry t) fs = refl
evidence_of-cons (lost bytes) fs = refl

telemetry_of-cons :
    (f : Fate) (fs : List Fate) → telemetry_of (f ∷ fs) ≡ telemetry_of (f ∷ []) ++ telemetry_of fs
telemetry_of-cons (as_diagnostic d) fs = refl
telemetry_of-cons (as_evidence e) fs = refl
telemetry_of-cons (as_telemetry t) fs = refl
telemetry_of-cons (lost bytes) fs = refl

lost_of-cons :
    (f : Fate) (fs : List Fate)
    → ((lost_of (f ∷ fs)).0 ≡ (lost_of (f ∷ [])).0 + (lost_of fs).0)
      × ((lost_of (f ∷ fs)).1 ≡ (lost_of (f ∷ [])).1 + (lost_of fs).1)
lost_of-cons (as_diagnostic d) fs = (omega arith, omega arith)
lost_of-cons (as_evidence e) fs = (omega arith, omega arith)
lost_of-cons (as_telemetry t) fs = (omega arith, omega arith)
lost_of-cons (lost bytes) fs = (omega arith, omega arith)

appended_twice :
    {A : Type 0} (a b c x y z : List A) → b ≡ a ++ x → c ≡ b ++ y → z ≡ x ++ y → c ≡ a ++ z
appended_twice a b c x y z first second whole =
    second ∙ (ap (λ l. l ++ y) first ∙ (append_assoc a x y ∙ ap (λ l. a ++ l) (sym whole)))

Follows-cons :
    (f : Fate) (fs : List Fate) (a b c : Appended)
    → Follows (f ∷ []) a b
    → Follows fs b c
    → Follows (f ∷ fs) a c
Follows-cons f fs a b c s t =
    let (count, bytes) = lost_of-cons f fs in
    record {
      diagnostics =
          appended_twice _ _ _ _ _ _ s.diagnostics t.diagnostics (diagnostics_of-cons f fs);
      evidence = appended_twice _ _ _ _ _ _ s.evidence t.evidence (evidence_of-cons f fs);
      telemetry = appended_twice _ _ _ _ _ _ s.telemetry t.telemetry (telemetry_of-cons f fs);
      lost = omega (arith, s.lost, t.lost, count);
      lost_bytes = omega (arith, s.lost_bytes, t.lost_bytes, bytes);
    }

Follows-nil : (a : Appended) → Follows [] a a
Follows-nil a = record {
  diagnostics = sym (append-nil a.result.diagnostics);
  evidence = sym (append-nil a.result.evidence);
  telemetry = sym (append-nil a.result.telemetry);
  lost = omega arith;
  lost_bytes = omega arith;
}

diagnosed-Follows :
    (a : Appended) (bytes : ℕ) (d : ResultDiagnosticV6)
    → Follows (as_diagnostic d ∷ []) a (diagnosed a bytes d)
diagnosed-Follows a bytes d = record {
  diagnostics = refl;
  evidence = sym (append-nil a.result.evidence);
  telemetry = sym (append-nil a.result.telemetry);
  lost = omega arith;
  lost_bytes = omega arith;
}

evidenced-Follows :
    (a : Appended) (bytes : ℕ) (e : ResultEvidenceV6)
    → Follows (as_evidence e ∷ []) a (evidenced a bytes e)
evidenced-Follows a bytes e = record {
  diagnostics = sym (append-nil a.result.diagnostics);
  evidence = refl;
  telemetry = sym (append-nil a.result.telemetry);
  lost = omega arith;
  lost_bytes = omega arith;
}

measured-Follows :
    (a : Appended) (bytes : ℕ) (t : TelemetryEntryV6)
    → Follows (as_telemetry t ∷ []) a (measured a bytes t)
measured-Follows a bytes t = record {
  diagnostics = sym (append-nil a.result.diagnostics);
  evidence = sym (append-nil a.result.evidence);
  telemetry = refl;
  lost = omega arith;
  lost_bytes = omega arith;
}

lost_one-Follows : (a : Appended) (bytes : ℕ) → Follows (lost bytes ∷ []) a (lost_one a bytes)
lost_one-Follows a bytes = record {
  diagnostics = sym (append-nil a.result.diagnostics);
  evidence = sym (append-nil a.result.evidence);
  telemetry = sym (append-nil a.result.telemetry);
  lost = omega arith;
  lost_bytes = omega arith;
}

failure_code-Shown : (f : Failure) → Shown f (failure_code f).0 (failure_code f).1
failure_code-Shown Failure.counted = Shown.counted
failure_code-Shown Failure.deferred = Shown.deferred
failure_code-Shown Failure.held = Shown.held
failure_code-Shown Failure.rolled_back = Shown.rolled_back

first_of : (p q r s : Bool) → p && q && r && s ≡ true → p ≡ true
first_of p q r s h = ground arith

if-either :
    {A : Type 0} (b : Bool) (x y : A) → ((if b then x else y) ≡ x) ⊎ ((if b then x else y) ≡ y)
if-either true x y = inl refl
if-either false x y = inr refl

module _ (codec : OutputCodec) where
  -- A state that one output leads to.
  abbrev Fated : Appended → HostOutput → Appended → Type 0
  Fated a o a' = (f : Fate) × FateOf codec o f × Follows (f ∷ []) a a'

  if-Fated :
      (a : Appended) (o : HostOutput) (b : Bool) (x y : Appended)
      → (b ≡ true → Fated a o x)
      → Fated a o y
      → Fated a o (if b then x else y)
  if-Fated a o true x y p q = p refl
  if-Fated a o false x y p q = q

  append_log-Fated :
      (a : Appended) (entry : LogAction) (severity text : String)
      → TextOf codec entry text
      → (severity ≡ entry.level) ⊎ (severity ≡ "info")
      → Fated a (HostOutput.log entry) (append_log a severity text)
  unfolding append_log
  append_log-Fated a entry severity text own shown =
      let bytes = String.len text + 32 in
      let o = HostOutput.log entry in
      let diagnostic : ResultDiagnosticV6 = record {
        severity = severity;
        code = "kernel_log";
        message = text;
      } in
      let evidence : ResultEvidenceV6 = record { code = "kernel_log"; payload = into_bytes text } in
      let lost_text = lost_one a (String.len text) in
      let second =
        leb (String.len text) max_evidence_payload_bytes
        && ltb (length a.result.evidence) max_result_evidence
        && leb bytes a.room in
      if-Fated a o
        (leb (String.len text) max_result_diagnostic_bytes
          && ltb (length a.result.diagnostics) diagnostic_room
          && leb bytes a.room)
        (diagnosed a bytes diagnostic) (if second then evidenced a bytes evidence else lost_text)
        (λ h. (
          as_diagnostic diagnostic,
          FateOf.log_diagnostic entry severity text own shown,
          diagnosed-Follows a bytes diagnostic,
        ))
        (if-Fated a o second (evidenced a bytes evidence) lost_text
          (λ h. (
            as_evidence evidence,
            FateOf.log_evidence entry text own,
            evidenced-Follows a bytes evidence,
          ))
          (
            lost (String.len text),
            FateOf.log_lost entry text own,
            lost_one-Follows a (String.len text),
          ))

  append_update-Fated :
      (a : Appended) (o : HostOutput) (severity code text : String)
      → FateOf codec o (as_diagnostic (record { severity = severity; code = code; message = text }))
      → FateOf codec o (lost (String.len text))
      → Fated a o (append_update a severity code text)
  unfolding append_update
  append_update-Fated a o severity code text kept gone =
      let bytes = String.len text + 32 in
      let diagnostic : ResultDiagnosticV6 = record {
        severity = severity;
        code = code;
        message = text;
      } in
      if-Fated a o (ltb (length a.result.diagnostics) diagnostic_room && leb bytes a.room)
        (diagnosed a bytes diagnostic) (lost_one a (String.len text))
        (λ h. (as_diagnostic diagnostic, kept, diagnosed-Follows a bytes diagnostic))
        (lost (String.len text), gone, lost_one-Follows a (String.len text))

  append_telemetry-Fated :
      (a : Appended) (entry : TelemetryEntryV6)
      → Fated a (HostOutput.telemetry entry) (append_telemetry a (codec.entry_len entry) entry)
  unfolding append_telemetry
  append_telemetry-Fated a entry =
      let bytes = codec.entry_len entry in
      if-Fated a (HostOutput.telemetry entry)
        (telemetry_is_valid entry
          && ltb (length a.result.telemetry) max_result_telemetry
          && leb (a.telemetry_bytes + bytes) max_telemetry_bytes
          && leb bytes a.room)
        (measured a bytes entry) (lost_one a bytes)
        (λ h. (
          as_telemetry entry,
          FateOf.kept_telemetry entry (first_of _ _ _ _ h),
          measured-Follows a bytes entry,
        ))
        (lost bytes, FateOf.lost_telemetry entry, lost_one-Follows a bytes)

  append_output-Fated : (a : Appended) (o : HostOutput) → Fated a o (append_output codec a o)
  unfolding append_output
  append_output-Fated a (HostOutput.log entry) =
      append_log-Fated a entry (if valid_level entry.level then entry.level else "info")
        (log_message codec entry) (if-either _ _ _) (if-either _ _ _)
  append_output-Fated a (HostOutput.update_error message failure) =
      append_update-Fated a (HostOutput.update_error message failure) (failure_code failure).0
        (failure_code failure).1 (truncate_utf8 message max_result_diagnostic_bytes)
        (FateOf.error_diagnostic message _ _ failure (failure_code-Shown failure))
        (FateOf.error_lost message failure)
  append_output-Fated a (HostOutput.update_warning code message) =
      append_update-Fated a (HostOutput.update_warning code message) "warn" code
        (truncate_utf8 message max_result_diagnostic_bytes) (FateOf.warning_diagnostic code message)
        (FateOf.warning_lost code message)
  append_output-Fated a (HostOutput.telemetry entry) = append_telemetry-Fated a entry

  pub append_each-Fates :
      (outputs : List HostOutput) (a : Appended)
      → (fates : List Fate) × FatesOf codec outputs fates
        × Follows fates a (append_each codec a outputs)
  unfolding append_each
  append_each-Fates [] a = ([], tt, Follows-nil a)
  append_each-Fates (o ∷ outputs) a =
      let (f, own, one) = append_output-Fated a o in
      let (fates, each, rest) = append_each-Fates outputs (append_output codec a o) in
      (f ∷ fates, (own, each), Follows-cons f fates a _ _ one rest)
