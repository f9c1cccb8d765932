-- ===== src/Host/Turns.antt =====
-- What a turn of `fit_result` sheds is counted (native/strategy_core_v3/src/kernel_v6.rs).
use strategy_core.Common.{
  ℕ, zero, suc, ◌+◌, ◌-◌, ◌<◌, ◌≡◌, refl, sym, ap, ◌∙◌, subst, true, not, Option, none, some, List,
  [], ◌∷◌, length, filter, count_if, length-append, take, drop, ltb, arith, Option-cases,
  Bool-cases, inl, inr,
}
use Prim.Native.String
use mathlib.Core.Option.{some-injective}
use mathlib.Core.List.{append-nil}
use strategy_core.Wire.Results.{
  ResultEvidenceV6, ResultDiagnosticV6, TelemetryEntryV6, DecisionResultV6,
}
use strategy_core.Host.Fit.{
  Overflow, ResultCodec, is_log_evidence, is_log, is_overflow, logs, div_ceil_8, remove_last,
  reported, lose, lose_entries, shed_telemetry, shed_log, shed_logs, shed,
}
use strategy_core.Host.Removed.{
  remove_last-some, remove_last-none, remove_last-others, take-drop, length-take, filter-filter,
  filter-append_one, count_if-append_one,
}
use strategy_core.Host.Shed.{
  is_own, sheddable, Sheds-refl, Sheds-trans, is_log-excluded, is_overflow-excluded,
  overflow-not_log, Counted,
}

module _ (codec : ResultCodec) where
  lost-lose_entries :
      (o : Overflow) (entries : List TelemetryEntryV6)
      → (lose_entries codec o entries).lost ≡ o.lost + length entries
  lost-lose_entries o [] = omega arith
  lost-lose_entries o (entry ∷ entries) =
      omega (arith, lost-lose_entries (lose codec o (codec.entry_len entry)) entries)

  pub reported-others :
      (o : Overflow) (ds : List ResultDiagnosticV6)
      → (filter is_own (reported codec o ds) ≡ filter is_own ds)
        × (count_if is_log (reported codec o ds) ≡ count_if is_log ds)
  unfolding reported
  reported-others o ds =
      let own = filter-filter is_overflow is_own is_overflow-excluded ds in
      let log = filter-filter is_overflow is_log overflow-not_log ds in
      elim (Bool-cases (ltb 0 o.lost)) [
        | inl some_lost ↦ rw some_lost (
          filter-append_one is_own (filter (λ d. not (is_overflow d)) ds) _ refl ∙ own.0,
          count_if-append_one is_log (filter (λ d. not (is_overflow d)) ds) _ refl ∙ log.1,
        )
        | inr nothing ↦ rw nothing (own.0, log.1)
      ]

  pub evidence-Counted :
      (r : DecisionResultV6) (o : Overflow) (found : ResultEvidenceV6)
      (kept : List ResultEvidenceV6) (bytes : ℕ)
      → remove_last is_log_evidence r.evidence ≡ some (found, kept)
      → Counted r (record r { evidence = kept }) o (lose codec o bytes)
  unfolding logs
  evidence-Counted r o found kept bytes e = record {
    sheds = record {
      rest = refl;
      evidence =
          remove_last-others is_log_evidence (λ e. not (is_log_evidence e)) (λ x h. ground arith)
            r.evidence kept found e;
      diagnostics = refl;
      telemetry = ([], sym (append-nil r.telemetry));
    };
    more = omega arith;
    balance = omega (arith, remove_last-some is_log_evidence r.evidence kept found e);
  }

  pub diagnostics-Counted :
      (r : DecisionResultV6) (o : Overflow) (found : ResultDiagnosticV6)
      (kept : List ResultDiagnosticV6) (bytes : ℕ)
      → remove_last is_log r.diagnostics ≡ some (found, kept)
      → Counted r (record r { diagnostics = kept }) o (lose codec o bytes)
  unfolding logs
  diagnostics-Counted r o found kept bytes e = record {
    sheds = record {
      rest = refl;
      evidence = refl;
      diagnostics = remove_last-others is_log is_own is_log-excluded r.diagnostics kept found e;
      telemetry = ([], sym (append-nil r.telemetry));
    };
    more = omega arith;
    balance = omega (arith, remove_last-some is_log r.diagnostics kept found e);
  }

  -- A step from one state of the loop to another that is given by an equation.
  pub Counted-subst :
      (r r1 r' : DecisionResultV6) (o o1 o' : Overflow)
      → ◌≡◌ {A = Option (DecisionResultV6 × Overflow)} (some (r1, o1)) (some (r', o'))
      → Counted r r1 o o1
      → o1.lost ≡ suc o.lost
      → Counted r r' o o' × (o'.lost ≡ suc o.lost)
  Counted-subst r r1 r' o o1 o' e c one =
      subst (λ (x : DecisionResultV6 × Overflow). Counted r x.0 o x.1 × (x.1.lost ≡ suc o.lost))
        (some-injective (r1, o1) (r', o') e) (c, one)

  pub shed_log-Counted :
      (r r' : DecisionResultV6) (o o' : Overflow)
      → shed_log codec r o ≡ some (r', o')
      → Counted r r' o o' × (o'.lost ≡ suc o.lost)
  unfolding shed_log logs
  shed_log-Counted r r' o o' e = elim (Option-cases (remove_last is_log_evidence r.evidence)) [
    | inr ((found, kept), there) ↦
        Counted-subst r (record r { evidence = kept }) r' o _ o' (ground arith)
          (evidence-Counted r o found kept (length found.payload) there) (omega arith)
    | inl nothing ↦ elim (Option-cases (remove_last is_log r.diagnostics)) [
      | inr ((found, kept), there) ↦
          Counted-subst r (record r { diagnostics = kept }) r' o _ o' (ground arith)
            (diagnostics-Counted r o found kept (String.len found.message) there) (omega arith)
      | inl gone ↦ absurd (ground arith)
    ]
  ]

  pub shed_log-none : (r : DecisionResultV6) (o : Overflow) → shed_log codec r o ≡ none → logs r ≡ 0
  unfolding shed_log logs
  shed_log-none r o e = elim (Option-cases (remove_last is_log_evidence r.evidence)) [
    | inr ((found, kept), there) ↦ absurd (ground arith)
    | inl nothing ↦ elim (Option-cases (remove_last is_log r.diagnostics)) [
      | inr ((found, kept), there) ↦ absurd (ground arith)
      | inl gone ↦ omega (
        arith,
        remove_last-none is_log_evidence r.evidence nothing,
        remove_last-none is_log r.diagnostics gone,
      )
    ]
  ]

  pub Counted-trans :
      (r r' r'' : DecisionResultV6) (o o' o'' : Overflow)
      → Counted r r' o o'
      → Counted r' r'' o' o''
      → Counted r r'' o o''
  Counted-trans r r' r'' o o' o'' c d = record {
    sheds = Sheds-trans r r' r'' c.sheds d.sheds;
    more = omega (arith, c.more, d.more);
    balance = omega (arith, c.balance, d.balance);
  }

  pub Counted-refl : (r : DecisionResultV6) (o : Overflow) → Counted r r o o
  Counted-refl r o = record { sheds = Sheds-refl r; more = omega arith; balance = refl }

  pub shed_logs-Counted :
      (n : ℕ) (r : DecisionResultV6) (o : Overflow)
      → Counted r (shed_logs codec n r o).0 o (shed_logs codec n r o).1
  unfolding shed_logs
  shed_logs-Counted zero r o = Counted-refl r o
  shed_logs-Counted (suc n) r o = elim (Option-cases (shed_log codec r o)) [
    | inl nothing ↦ rw (nothing, shed_logs) (Counted-refl r o)
    | inr ((r', o'), there) ↦
        rw (there, shed_logs)
          (Counted-trans r r' _ o o' _ (shed_log-Counted r r' o o' there).0
            (shed_logs-Counted n r' o'))
  ]

  -- Some log is shed when there is one.
  pub shed_logs-more :
      (n : ℕ) (r : DecisionResultV6) (o : Overflow)
      → 0 < n
      → 0 < logs r
      → o.lost < (shed_logs codec n r o).1.lost
  unfolding shed_logs
  shed_logs-more zero r o none_shed some_left = omega (arith, none_shed)
  shed_logs-more (suc n) r o some_shed some_left = elim (Option-cases (shed_log codec r o)) [
    | inl nothing ↦ absurd (omega (arith, some_left, shed_log-none r o nothing))
    | inr ((r', o'), there) ↦
        let (c, one) = shed_log-Counted r r' o o' there in
        let later = shed_logs-Counted n r' o' in
        rw (there, shed_logs) (omega (arith, one, later.more))
  ]

  pub shed_telemetry-Counted :
      (r : DecisionResultV6) (o : Overflow)
      → 0 < length r.telemetry
      → Counted r (shed_telemetry codec r o).0 o (shed_telemetry codec r o).1
        × (o.lost < (shed_telemetry codec r o).1.lost)
  unfolding shed_telemetry logs
  shed_telemetry-Counted r o some_left =
      let n = length r.telemetry in
      let keep = n - div_ceil_8 n in
      let whole = take-drop keep r.telemetry in
      let sum : n ≡ length (take keep r.telemetry) + length (drop keep r.telemetry) =
        ap length whole ∙ length-append (take keep r.telemetry) (drop keep r.telemetry) in
      let kept = length-take keep r.telemetry (omega arith) in
      let lost = lost-lose_entries o (drop keep r.telemetry) in
      (
        record {
          sheds = record {
            rest = refl;
            evidence = refl;
            diagnostics = refl;
            telemetry = (drop keep r.telemetry, whole);
          };
          more = omega (arith, lost);
          balance = omega (arith, lost, sum);
        },
        omega (arith, lost, sum, kept, some_left),
      )

  pub ltb-lt : (a b : ℕ) → ltb a b ≡ true → a < b
  ltb-lt a b h = ground arith

  pub turn-subst :
      (r r' : DecisionResultV6) (o o' : Overflow) (reached : DecisionResultV6 × Overflow)
      → ◌≡◌ {A = Option (DecisionResultV6 × Overflow)} (some reached) (some (r', o'))
      → Counted r reached.0 o reached.1 × (o.lost < reached.1.lost)
      → Counted r r' o o' × (o.lost < o'.lost)
  turn-subst r r' o o' reached e c =
      subst (λ (x : DecisionResultV6 × Overflow). Counted r x.0 o x.1 × (o.lost < x.1.lost))
        (some-injective reached (r', o') e) c

  -- What a turn sheds.
  pub shed-some :
      (r r' : DecisionResultV6) (o o' : Overflow)
      → shed codec r o ≡ some (r', o')
      → Counted r r' o o' × (o.lost < o'.lost)
  unfolding shed
  shed-some r r' o o' e = elim (Bool-cases (ltb 0 (length r.telemetry))) [
    | inl some_left ↦
        turn-subst r r' o o' (shed_telemetry codec r o) (ground arith)
          (shed_telemetry-Counted r o (ground arith))
    | inr no_telemetry ↦ elim (Bool-cases (ltb 0 (logs r))) [
      | inl some_logs ↦
          turn-subst r r' o o' (shed_logs codec (div_ceil_8 (logs r)) r o) (ground arith) (
            shed_logs-Counted (div_ceil_8 (logs r)) r o,
            shed_logs-more (div_ceil_8 (logs r)) r o (omega (arith, ltb-lt 0 (logs r) some_logs))
                (ltb-lt 0 (logs r) some_logs),
          )
      | inr nothing ↦ absurd (ground arith)
    ]
  ]

  pub shed-none : (r : DecisionResultV6) (o : Overflow) → shed codec r o ≡ none → sheddable r ≡ 0
  unfolding shed
  shed-none r o e = ground arith
