-- ===== src/Host/Appends.antt =====
-- The outputs are appended within the bounds, and each is kept or counted as lost
-- (native/strategy_core_v3/src/kernel_v6.rs).
use Prim.Native.String
use mathlib.Core.List.{append-nil, append_assoc}
use strategy_core.Common.{
  ℕ, ◌+◌, ◌≤◌, ◌<◌, ◌≡◌, refl, sym, ap, ◌∙◌, max, List, [], ◌∷◌, ◌++◌, length, length-append, arith,
}
use strategy_core.Wire.Results.{
  ResultEvidenceV6, ResultDiagnosticV6, TelemetryEntryV6, DecisionResultV6,
}
use strategy_core.Host.Shed.{bare}
use strategy_core.Host.Append.{
  OutputCodec, Appended, max_result_evidence, max_result_telemetry, max_telemetry_bytes,
  diagnostic_room, lost_one, diagnosed, evidenced, measured,
}

-- The bytes that the diagnostics and the telemetry are charged.
abbrev pub diagnostic_bytes : List ResultDiagnosticV6 → ℕ
diagnostic_bytes [] = 0
diagnostic_bytes (d ∷ ds) = String.len d.message + 32 + diagnostic_bytes ds

diagnostic_bytes-append :
    (ds es : List ResultDiagnosticV6)
    → diagnostic_bytes (ds ++ es) ≡ diagnostic_bytes ds + diagnostic_bytes es
diagnostic_bytes-append [] es = omega arith
diagnostic_bytes-append (d ∷ ds) es = omega (arith, diagnostic_bytes-append ds es)

module _ (codec : OutputCodec) where
  abbrev pub telemetry_len : List TelemetryEntryV6 → ℕ
  telemetry_len [] = 0
  telemetry_len (e ∷ es) = codec.entry_len e + telemetry_len es

  telemetry_len-append :
      (es fs : List TelemetryEntryV6)
      → telemetry_len (es ++ fs) ≡ telemetry_len es + telemetry_len fs
  telemetry_len-append [] fs = omega arith
  telemetry_len-append (e ∷ es) fs = omega (arith, telemetry_len-append es fs)

abbrev pub entries : DecisionResultV6 → ℕ
entries r = length r.evidence + length r.diagnostics + length r.telemetry

-- The second list has the first at its head.
abbrev pub Extends : {A : Type 0} → List A → List A → Type 0
Extends {A} xs ys = (added : List A) × (ys ≡ xs ++ added)

Extends-refl : {A : Type 0} → (xs : List A) → Extends xs xs
Extends-refl xs = ([], sym (append-nil xs))

pub Extends-trans :
    {A : Type 0} → (xs ys zs : List A) → Extends xs ys → Extends ys zs → Extends xs zs
Extends-trans xs ys zs (added, e) (more, f) =
    (added ++ more, f ∙ ap (λ l. l ++ more) e ∙ append_assoc xs added more)

-- What so many outputs add to a result: each is kept or counted as lost, within the bounds.
pub record Grows (codec : OutputCodec) (n : ℕ) (a a' : Appended) : Type 0 where
  pub rest : bare a'.result ≡ bare a.result
  pub evidence : Extends a.result.evidence a'.result.evidence
  pub diagnostics : Extends a.result.diagnostics a'.result.diagnostics
  pub telemetry : Extends a.result.telemetry a'.result.telemetry
  pub counted : a'.overflow.lost + entries a'.result ≡ a.overflow.lost + entries a.result + n
  pub evidence_bound :
      length a'.result.evidence ≤ max (length a.result.evidence) max_result_evidence
  pub diagnostics_bound :
      length a'.result.diagnostics ≤ max (length a.result.diagnostics) diagnostic_room
  pub telemetry_bound :
      length a'.result.telemetry ≤ max (length a.result.telemetry) max_result_telemetry
  pub measured_bound : a'.telemetry_bytes ≤ max a.telemetry_bytes max_telemetry_bytes
  pub measured :
      telemetry_len codec a'.result.telemetry + a.telemetry_bytes
      ≡ telemetry_len codec a.result.telemetry + a'.telemetry_bytes
  pub room :
      diagnostic_bytes a'.result.diagnostics + telemetry_len codec a'.result.telemetry + a'.room
      ≤ diagnostic_bytes a.result.diagnostics + telemetry_len codec a.result.telemetry + a.room

module _ (codec : OutputCodec) where
  pub Grows-refl : (a : Appended) → Grows codec 0 a a
  Grows-refl a = record {
    rest = refl;
    evidence = Extends-refl a.result.evidence;
    diagnostics = Extends-refl a.result.diagnostics;
    telemetry = Extends-refl a.result.telemetry;
    counted = omega arith;
    evidence_bound = omega arith;
    diagnostics_bound = omega arith;
    telemetry_bound = omega arith;
    measured_bound = omega arith;
    measured = refl;
    room = omega arith;
  }

  pub Grows-trans :
      (m n k : ℕ) (a b c : Appended)
      → k ≡ m + n
      → Grows codec m a b
      → Grows codec n b c
      → Grows codec k a c
  Grows-trans m n k a b c sum g h = record {
    rest = h.rest ∙ g.rest;
    evidence = Extends-trans _ _ _ g.evidence h.evidence;
    diagnostics = Extends-trans _ _ _ g.diagnostics h.diagnostics;
    telemetry = Extends-trans _ _ _ g.telemetry h.telemetry;
    counted = omega (arith, g.counted, h.counted, sum);
    evidence_bound = omega (arith, g.evidence_bound, h.evidence_bound);
    diagnostics_bound = omega (arith, g.diagnostics_bound, h.diagnostics_bound);
    telemetry_bound = omega (arith, g.telemetry_bound, h.telemetry_bound);
    measured_bound = omega (arith, g.measured_bound, h.measured_bound);
    measured = omega (arith, g.measured, h.measured);
    room = omega (arith, g.room, h.room);
  }

  pub lost_one-Grows : (a : Appended) (bytes : ℕ) → Grows codec 1 a (lost_one a bytes)
  lost_one-Grows a bytes = record {
    rest = refl;
    evidence = Extends-refl a.result.evidence;
    diagnostics = Extends-refl a.result.diagnostics;
    telemetry = Extends-refl a.result.telemetry;
    counted = omega arith;
    evidence_bound = omega arith;
    diagnostics_bound = omega arith;
    telemetry_bound = omega arith;
    measured_bound = omega arith;
    measured = refl;
    room = omega arith;
  }

  pub diagnosed-Grows :
      (a : Appended) (d : ResultDiagnosticV6)
      → length a.result.diagnostics < diagnostic_room
      → String.len d.message + 32 ≤ a.room
      → Grows codec 1 a (diagnosed a (String.len d.message + 32) d)
  diagnosed-Grows a d space fits =
      let more = length-append a.result.diagnostics (d ∷ []) in
      record {
        rest = refl;
        evidence = Extends-refl a.result.evidence;
        diagnostics = (d ∷ [], refl);
        telemetry = Extends-refl a.result.telemetry;
        counted = omega (arith, more);
        evidence_bound = omega arith;
        diagnostics_bound = omega (arith, more, space);
        telemetry_bound = omega arith;
        measured_bound = omega arith;
        measured = refl;
        room = omega (arith, diagnostic_bytes-append a.result.diagnostics (d ∷ []), fits);
      }

  pub evidenced-Grows :
      (a : Appended) (bytes : ℕ) (e : ResultEvidenceV6)
      → length a.result.evidence < max_result_evidence
      → Grows codec 1 a (evidenced a bytes e)
  evidenced-Grows a bytes e space =
      let more = length-append a.result.evidence (e ∷ []) in
      record {
        rest = refl;
        evidence = (e ∷ [], refl);
        diagnostics = Extends-refl a.result.diagnostics;
        telemetry = Extends-refl a.result.telemetry;
        counted = omega (arith, more);
        evidence_bound = omega (arith, more, space);
        diagnostics_bound = omega arith;
        telemetry_bound = omega arith;
        measured_bound = omega arith;
        measured = refl;
        room = omega arith;
      }

  pub measured-Grows :
      (a : Appended) (e : TelemetryEntryV6)
      → length a.result.telemetry < max_result_telemetry
      → a.telemetry_bytes + codec.entry_len e ≤ max_telemetry_bytes
      → codec.entry_len e ≤ a.room
      → Grows codec 1 a (measured a (codec.entry_len e) e)
  measured-Grows a e space few fits =
      let more = length-append a.result.telemetry (e ∷ []) in
      let len = telemetry_len-append codec a.result.telemetry (e ∷ []) in
      record {
        rest = refl;
        evidence = Extends-refl a.result.evidence;
        diagnostics = Extends-refl a.result.diagnostics;
        telemetry = (e ∷ [], refl);
        counted = omega (arith, more);
        evidence_bound = omega arith;
        diagnostics_bound = omega arith;
        telemetry_bound = omega (arith, more, space);
        measured_bound = omega (arith, few);
        measured = omega (arith, len);
        room = omega (arith, len, fits);
      }
