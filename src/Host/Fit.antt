-- ===== src/Host/Fit.antt =====
-- The fitting of a decision's result to the bound of its encoding (`fit_result` in
-- native/strategy_core_v3/src/kernel_v6.rs). The encoder, which checks the result and encodes it with
-- bincode, is a parameter, and so are the length of a telemetry entry and the text of the overflow.
use Prim.Native.String
use strategy_core.Common.{
  ℕ, zero, suc, ◌+◌, ◌-◌, ◌/◌, Bool, true, false, not, String, Option, none, some, List, [], ◌∷◌,
  ◌++◌, length, filter, count_if, take, drop, Result, ok, err, str_eq, ltb, if◌then◌else◌,
}
use strategy_core.Wire.Text.{DecisionV6Error}
use strategy_core.Wire.Results.{
  ResultEvidenceV6, ResultDiagnosticV6, TelemetryEntryV6, DecisionResultV6,
}

-- Logs and telemetry that the result could not keep.
pub record Overflow : Type 0 where
  pub lost : ℕ
  pub lost_bytes : ℕ

-- What the encoder says of a result, an entry's encoded length, and the text of what is lost.
pub record ResultCodec : Type 0 where
  pub encode : DecisionResultV6 → Result DecisionV6Error (List ℕ)
  pub entry_len : TelemetryEntryV6 → ℕ
  pub overflow_text : ℕ → ℕ → String

abbrev pub is_log_evidence : ResultEvidenceV6 → Bool
is_log_evidence evidence = str_eq evidence.code "kernel_log"

abbrev pub is_log : ResultDiagnosticV6 → Bool
is_log diagnostic = str_eq diagnostic.code "kernel_log"

abbrev pub is_overflow : ResultDiagnosticV6 → Bool
is_overflow diagnostic = str_eq diagnostic.code "kernel_telemetry_overflow"

-- The logs that are left in the evidence and the diagnostics.
unfoldable pub logs : DecisionResultV6 → ℕ
logs r = count_if is_log_evidence r.evidence + count_if is_log r.diagnostics

-- `div_ceil(8)`
abbrev pub div_ceil_8 : ℕ → ℕ
div_ceil_8 n = (n + 7) / 8

-- `rposition` and `remove`: the last item that passes a test, and the others.
unfoldable pub remove_last : {A : Type 0} → (A → Bool) → List A → Option (A × List A)
remove_last p [] = none
remove_last p (x ∷ xs) = elim (remove_last p xs) [
  | some (found, rest) ↦ some (found, x ∷ rest)
  | none ↦ if p x then some (x, xs) else none
]

-- A turn of the loop returns, or leaves what the next begins with.
pub data Turn : Type 0 where
  done : Result DecisionV6Error DecisionResultV6 → Turn
  again : DecisionResultV6 → Overflow → Turn

abbrev pub is_bound_exceeded : DecisionV6Error → Bool
is_bound_exceeded DecisionV6Error.bound_exceeded = true
is_bound_exceeded _ = false

-- What is left of an encoding beyond the bound: an entry less, or nothing to shed.
abbrev pub retried : Option (DecisionResultV6 × Overflow) → Turn
retried none = Turn.done (err DecisionV6Error.bound_exceeded)
retried (some (r, o)) = Turn.again r o

module _ (codec : ResultCodec) where
  -- The diagnostics with one of what is lost, in place of an earlier one.
  unfoldable pub reported : Overflow → List ResultDiagnosticV6 → List ResultDiagnosticV6
  reported o diagnostics =
      let kept = filter (λ d. not (is_overflow d)) diagnostics in
      if ltb 0 o.lost
      then kept
        ++ record {
          severity = "error";
          code = "kernel_telemetry_overflow";
          message = codec.overflow_text o.lost o.lost_bytes;
        }
          ∷ []
      else kept

  abbrev pub lose : Overflow → ℕ → Overflow
  lose o bytes = record { lost = o.lost + 1; lost_bytes = o.lost_bytes + bytes }

  -- The entries that are shed, counted.
  abbrev pub lose_entries : Overflow → List TelemetryEntryV6 → Overflow
  lose_entries o [] = o
  lose_entries o (entry ∷ entries) = lose_entries (lose o (codec.entry_len entry)) entries

  unfoldable pub shed_telemetry : DecisionResultV6 → Overflow → DecisionResultV6 × Overflow
  shed_telemetry r o =
      let n = length r.telemetry in
      let keep = n - div_ceil_8 n in
      (record r { telemetry = take keep r.telemetry }, lose_entries o (drop keep r.telemetry))

  -- The last log, of the evidence first.
  unfoldable pub shed_log : DecisionResultV6 → Overflow → Option (DecisionResultV6 × Overflow)
  unfolding remove_last
  shed_log r o = elim (remove_last is_log_evidence r.evidence) [
    | some (shed, evidence) ↦ some (record r { evidence = evidence }, lose o (length shed.payload))
    | none ↦ elim (remove_last is_log r.diagnostics) [
      | some (shed, diagnostics) ↦
          some (record r { diagnostics = diagnostics }, lose o (String.len shed.message))
      | none ↦ none
    ]
  ]

  -- `for _ in 0..n`, left when there is no log.
  unfoldable pub shed_logs : ℕ → DecisionResultV6 → Overflow → DecisionResultV6 × Overflow
  unfolding shed_log
  shed_logs zero r o = (r, o)
  shed_logs (suc n) r o = elim (shed_log r o) [ none ↦ (r, o) | some (r', o') ↦ shed_logs n r' o' ]

  -- An eighth of what is left of the kind being shed; none when there is nothing left.
  unfoldable pub shed : DecisionResultV6 → Overflow → Option (DecisionResultV6 × Overflow)
  unfolding shed_telemetry shed_logs logs
  shed r o =
      if ltb 0 (length r.telemetry)
      then some (shed_telemetry r o)
      else if ltb 0 (logs r)
      then some (shed_logs (div_ceil_8 (logs r)) r o)
      else none

  abbrev pub answered : DecisionResultV6 → Overflow → Result DecisionV6Error (List ℕ) → Turn
  answered told o (ok bytes) = Turn.done (ok told)
  answered told o (err error) =
      if is_bound_exceeded error then retried (shed told o) else Turn.done (err error)

  -- The body of the loop.
  unfoldable pub turn : DecisionResultV6 → Overflow → Turn
  unfolding reported shed
  turn r o =
      let told = record r { diagnostics = reported o r.diagnostics } in
      answered told o (codec.encode told)

  -- The loop, with fuel: none when it runs out.
  unfoldable pub fit_loop :
      ℕ → DecisionResultV6 → Overflow → Option (Result DecisionV6Error DecisionResultV6)
  unfolding turn
  fit_loop zero r o = none
  fit_loop (suc fuel) r o = elim (turn r o) [
    | Turn.done outcome ↦ some outcome
    | Turn.again r' o' ↦ fit_loop fuel r' o'
  ]

  -- `fit_result`: each turn sheds an entry, so as many turns as there are entries are enough.
  unfoldable pub fit_result :
      DecisionResultV6 → Overflow → Option (Result DecisionV6Error DecisionResultV6)
  unfolding fit_loop logs
  fit_result r o = fit_loop (suc (length r.telemetry + logs r)) r o
