-- ===== src/Host/Shed.antt =====
-- What a turn of `fit_result` sheds, and that it is counted (native/strategy_core_v3/src/kernel_v6.rs).
use strategy_core.Common.{
  ℕ, ◌+◌, ◌≤◌, ◌≡◌, refl, sym, ap, ◌∙◌, subst, Bool, true, false, not, ◌&&◌, List, [], ◌++◌, length,
  filter, str_eq, arith,
}
use mathlib.Core.List.{append-nil, append_assoc}
use strategy_core.Common.{eq_iff}
use strategy_core.Wire.Results.{ResultDiagnosticV6, TelemetryEntryV6, DecisionResultV6}
use strategy_core.Host.Fit.{Overflow, is_log_evidence, is_log, is_overflow, logs}

-- A diagnostic that the fitting leaves alone.
abbrev pub is_own : ResultDiagnosticV6 → Bool
is_own diagnostic = not (is_log diagnostic) && not (is_overflow diagnostic)

-- The entries that the fitting may shed.
abbrev pub sheddable : DecisionResultV6 → ℕ
sheddable r = length r.telemetry + logs r

-- A result without what the fitting changes.
abbrev pub bare : DecisionResultV6 → DecisionResultV6
bare r = record r { evidence = []; diagnostics = []; telemetry = [] }

-- The second result is the first less some logs and its last telemetry.
pub record Sheds (r r' : DecisionResultV6) : Type 0 where
  pub rest : bare r' ≡ bare r
  pub evidence :
      filter (λ e. not (is_log_evidence e)) r'.evidence
      ≡ filter (λ e. not (is_log_evidence e)) r.evidence
  pub diagnostics : filter is_own r'.diagnostics ≡ filter is_own r.diagnostics
  pub telemetry : (gone : List TelemetryEntryV6) × (r.telemetry ≡ r'.telemetry ++ gone)

pub Sheds-refl : (r : DecisionResultV6) → Sheds r r
Sheds-refl r = record {
  rest = refl;
  evidence = refl;
  diagnostics = refl;
  telemetry = ([], sym (append-nil r.telemetry));
}

pub Sheds-trans : (r r' r'' : DecisionResultV6) → Sheds r r' → Sheds r' r'' → Sheds r r''
Sheds-trans r r' r'' s t = record {
  rest = t.rest ∙ s.rest;
  evidence = t.evidence ∙ s.evidence;
  diagnostics = t.diagnostics ∙ s.diagnostics;
  telemetry = (
    t.telemetry.0 ++ s.telemetry.0,
    s.telemetry.1
        ∙ ap (λ ts. ts ++ s.telemetry.0) t.telemetry.1
        ∙ append_assoc r''.telemetry t.telemetry.0 s.telemetry.0,
  );
}

pub is_log-excluded : (d : ResultDiagnosticV6) → is_log d ≡ true → is_own d ≡ false
is_log-excluded d h = ground arith

pub is_overflow-excluded : (d : ResultDiagnosticV6) → is_overflow d ≡ true → is_own d ≡ false
is_overflow-excluded d h = ground arith

pub overflow-not_log : (d : ResultDiagnosticV6) → is_overflow d ≡ true → is_log d ≡ false
overflow-not_log d h =
    let same = (eq_iff d.code "kernel_telemetry_overflow").0 h in
    subst (λ code. str_eq code "kernel_log" ≡ false) (sym same) refl

-- The loss of a step: what goes is counted.
pub record Counted (r r' : DecisionResultV6) (o o' : Overflow) : Type 0 where
  pub sheds : Sheds r r'
  pub more : o.lost ≤ o'.lost
  pub balance : o'.lost + sheddable r' ≡ o.lost + sheddable r
