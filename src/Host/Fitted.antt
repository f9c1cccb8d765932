-- ===== src/Host/Fitted.antt =====
-- The fitting of a result always ends, and sheds nothing but telemetry and logs
-- (native/strategy_core_v3/src/kernel_v6.rs).
use strategy_core.Common.{
  ℕ, zero, suc, ◌+◌, ◌-◌, ◌<◌, ◌≡◌, refl, sym, ap, ◌∙◌, true, false, Option, none, some, List, [],
  Result, ok, err, arith, Bool-cases, inl, inr, ◌⊎◌,
}
use mathlib.Core.List.{append-nil}
use strategy_core.Wire.Text.{DecisionV6Error}
use strategy_core.Wire.Results.{ResultDiagnosticV6, DecisionResultV6}
use strategy_core.Host.Fit.{
  Overflow, ResultCodec, logs, reported, shed, Turn, is_bound_exceeded, retried, answered, turn,
  fit_loop, fit_result,
}
use strategy_core.Host.Shed.{sheddable, Sheds, Sheds-refl, Sheds-trans, Counted}
use strategy_core.Host.Turns.{Counted-trans, reported-others, shed-some, shed-none}

module _ (codec : ResultCodec) where
  -- A result that is returned: it encodes, and says how much is lost.
  pub record Fits (r : DecisionResultV6) (o : Overflow) (r' : DecisionResultV6) : Type 0 where
    pub encodes : (bytes : List ℕ) × (codec.encode r' ≡ ok bytes)
    pub sheds : Sheds r r'
    pub reports :
        (lost_bytes : ℕ) × (diagnostics : List ResultDiagnosticV6) × (r'.diagnostics
          ≡ reported codec
              (record { lost = o.lost + sheddable r - sheddable r'; lost_bytes = lost_bytes })
              diagnostics)

  -- An error is the encoder's, about the bound only with nothing left to shed.
  abbrev pub Fails : DecisionResultV6 → DecisionV6Error → Type 0
  Fails r error =
      (r' : DecisionResultV6) × Sheds r r'
      × (codec.encode r' ≡ err error)
      × ((is_bound_exceeded error ≡ false) ⊎ (sheddable r' ≡ 0))

  abbrev pub Outcome :
      DecisionResultV6 → Overflow → Result DecisionV6Error DecisionResultV6 → Type 0
  Outcome r o (ok r') = Fits r o r'
  Outcome r o (err error) = Fails r error

  Outcome-Counted :
      (r r' : DecisionResultV6) (o o' : Overflow)
      (outcome : Result DecisionV6Error DecisionResultV6)
      → Counted r r' o o'
      → Outcome r' o' outcome
      → Outcome r o outcome
  Outcome-Counted r r' o o' (ok r'') c fits = record {
    encodes = fits.encodes;
    sheds = Sheds-trans r r' r'' c.sheds fits.sheds;
    reports = (
      fits.reports.0,
      fits.reports.1,
      fits.reports.2
          ∙ ap
              (λ lost.
                reported codec (record { lost = lost - sheddable r''; lost_bytes = fits.reports.0 })
                  fits.reports.1)
              c.balance,
    );
  }
  Outcome-Counted r r' o o' (err error) c (r'', sheds, e, nothing) =
      (r'', Sheds-trans r r' r'' c.sheds sheds, e, nothing)

  abbrev Good : DecisionResultV6 → Overflow → Turn → Type 0
  Good r o (Turn.done outcome) = Outcome r o outcome
  Good r o (Turn.again r' o') = Counted r r' o o' × (sheddable r' < sheddable r)

  told-Counted :
      (r : DecisionResultV6) (o : Overflow)
      → Counted r (record r { diagnostics = reported codec o r.diagnostics }) o o
  unfolding logs
  told-Counted r o =
      let (own, log) = reported-others codec o r.diagnostics in
      record {
        sheds = record {
          rest = refl;
          evidence = refl;
          diagnostics = own;
          telemetry = ([], sym (append-nil r.telemetry));
        };
        more = omega arith;
        balance = omega (arith, log);
      }

  retried-Good :
      (told : DecisionResultV6) (o : Overflow) (left : Option (DecisionResultV6 × Overflow))
      → shed codec told o ≡ left
      → codec.encode told ≡ err DecisionV6Error.bound_exceeded
      → Good told o (retried left)
  retried-Good told o none h e = (told, Sheds-refl told, e, inr (shed-none codec told o h))
  retried-Good told o (some (r', o')) h e =
      let (c, more) = shed-some codec told r' o o' h in (c, omega (arith, c.balance, more))

  bound-eq :
      (error : DecisionV6Error)
      → is_bound_exceeded error ≡ true
      → error ≡ DecisionV6Error.bound_exceeded
  bound-eq DecisionV6Error.bound_exceeded h = refl
  bound-eq DecisionV6Error.encode h = cc
  bound-eq DecisionV6Error.decode h = cc
  bound-eq DecisionV6Error.trailing_bytes h = cc
  bound-eq DecisionV6Error.invalid_contract h = cc
  bound-eq DecisionV6Error.duplicate_identity h = cc
  bound-eq DecisionV6Error.non_canonical_order h = cc

  answered-Good :
      (r : DecisionResultV6) (o : Overflow) (answer : Result DecisionV6Error (List ℕ))
      (told : DecisionResultV6)
      → told ≡ record r { diagnostics = reported codec o r.diagnostics }
      → codec.encode told ≡ answer
      → Good told o (answered codec told o answer)
  answered-Good r o (ok bytes) told same e = record {
    encodes = (bytes, e);
    sheds = Sheds-refl told;
    reports = (
      o.lost_bytes,
      r.diagnostics,
      ap (λ (d : DecisionResultV6). d.diagnostics) same
          ∙ ap
              (λ lost.
                reported codec (record { lost = lost; lost_bytes = o.lost_bytes }) r.diagnostics)
              (omega arith),
    );
  }
  answered-Good r o (err error) told same e = elim (Bool-cases (is_bound_exceeded error)) [
    | inl bound ↦ rw bound (
        retried-Good told o (shed codec told o) refl
          (e ∙ ap (λ (x : DecisionV6Error). err x) (bound-eq error bound)))
    | inr other ↦ rw other (told, Sheds-refl told, e, inl other)
  ]

  Good-Counted :
      (r told : DecisionResultV6) (o : Overflow) (t : Turn)
      → Counted r told o o
      → Good told o t
      → Good r o t
  Good-Counted r told o (Turn.done outcome) c good = Outcome-Counted r told o o outcome c good
  Good-Counted r told o (Turn.again r' o') c good =
      (Counted-trans codec r told r' o o o' c good.0, omega (arith, good.1, c.balance))

  turn-Good : (r : DecisionResultV6) (o : Overflow) → Good r o (turn codec r o)
  unfolding turn
  turn-Good r o =
      let told : DecisionResultV6 = record r { diagnostics = reported codec o r.diagnostics } in
      Good-Counted r told o (answered codec told o (codec.encode told)) (told-Counted r o)
        (answered-Good r o (codec.encode told) told refl refl)

  abbrev pub Ends :
      DecisionResultV6 → Overflow → Option (Result DecisionV6Error DecisionResultV6) → Type 0
  Ends r o left =
      (outcome : Result DecisionV6Error DecisionResultV6) × (left ≡ some outcome)
      × Outcome r o outcome

  turned-Ends :
      (r : DecisionResultV6) (o : Overflow)
      (rest : DecisionResultV6 → Overflow → Option (Result DecisionV6Error DecisionResultV6))
      (t : Turn)
      → ((r' : DecisionResultV6) (o' : Overflow)
          → sheddable r' < sheddable r
          → Ends r' o' (rest r' o'))
      → Good r o t
      → Ends r o (elim t [ Turn.done outcome ↦ some outcome | Turn.again r' o' ↦ rest r' o' ])
  turned-Ends r o rest (Turn.done outcome) later good = (outcome, refl, good)
  turned-Ends r o rest (Turn.again r' o') later (c, fewer) =
      let (outcome, e, ends) = later r' o' fewer in
      (outcome, e, Outcome-Counted r r' o o' outcome c ends)

  fit_loop-Ends :
      (fuel : ℕ) (r : DecisionResultV6) (o : Overflow)
      → sheddable r < fuel
      → Ends r o (fit_loop codec fuel r o)
  unfolding fit_loop
  fit_loop-Ends zero r o enough = absurd (omega (arith, enough))
  fit_loop-Ends (suc fuel) r o enough =
      turned-Ends r o (fit_loop codec fuel) (turn codec r o)
        (λ r' o' fewer. fit_loop-Ends fuel r' o' (omega (arith, enough, fewer))) (turn-Good r o)

  -- The fitting of a result always ends. A result that it returns encodes, keeps everything but
  -- kernel logs and the last telemetry, and its overflow diagnostic counts what was lost before and
  -- every entry shed, if any. Otherwise the error is the encoder's, of such a result, and about the
  -- bound only when no log and no telemetry is left.
  pub fit_result-Ends :
      (r : DecisionResultV6) (o : Overflow)
      → (outcome : Result DecisionV6Error DecisionResultV6) × (fit_result codec r o ≡ some outcome)
        × Outcome r o outcome
  unfolding fit_result logs
  fit_result-Ends r o = fit_loop-Ends (suc (sheddable r)) r o (omega arith)
