-- ===== src/Updates/Retry.antt =====
-- How long an update is delivered again (`Derived::finalize` in kernel_v6/updates.rs).
use strategy_core.Common.{
  ℕ, ◌+◌, ◌*◌, ◌<◌, ◌≡◌, Bool, true, false, some, List, [], ◌∷◌, length, arith,
}
use strategy_core.Wire.Bounds.{max_delivery_attempts, max_delivery_deferrals}
use strategy_core.Wire.Orders.{RunnerEntryV6}
use strategy_core.Wire.Runner.{bad_counters}
use strategy_core.Updates.Records.{Failure}
use strategy_core.Updates.Compare.{View}
use strategy_core.Updates.Derive.{step_of}
use strategy_core.Updates.Finalize.{Settled, settle}

-- A failure that counts towards a bound.
abbrev is_rolled_back : Failure → Bool
is_rolled_back Failure.rolled_back = true
is_rolled_back _ = false

-- Decisions in a row, each with its view and its failure, in which an entry's update fails and is
-- not abandoned.
pub data Unheard : List (View × Failure) → RunnerEntryV6 → Type 0 where
  fresh : (e : RunnerEntryV6) → Unheard [] e
  again :
      (v : View) (f : Failure) (ds : List (View × Failure)) (e n : RunnerEntryV6) (r : Settled)
      → is_rolled_back f ≡ false
      → settle (step_of v e) (some f) ≡ some r
      → r.notes ≡ []
      → r.entry ≡ some n
      → Unheard ds n
      → Unheard ((v, f) ∷ ds) e

-- How far the counters have gone: a counted failure starts the deferrals anew.
abbrev spent : RunnerEntryV6 → ℕ
spent e = max_delivery_deferrals * e.delivery_failures + e.delivery_deferrals

abbrev InRange : RunnerEntryV6 → Type 0
InRange e =
    (e.delivery_failures < max_delivery_attempts) × (e.delivery_deferrals < max_delivery_deferrals)

again-spent :
    (v : View) (f : Failure) (e n : RunnerEntryV6) (r : Settled)
    → is_rolled_back f ≡ false
    → InRange e
    → settle (step_of v e) (some f) ≡ some r
    → r.notes ≡ []
    → r.entry ≡ some n
    → (spent e < spent n) × InRange n
unfolding settle
again-spent v f e n r counts range k quiet left = ground arith

spent-Unheard :
    (ds : List (View × Failure)) (e : RunnerEntryV6)
    → InRange e
    → Unheard ds e
    → spent e + length ds < max_delivery_deferrals * max_delivery_attempts
spent-Unheard _ _ range (fresh e) = omega arith
spent-Unheard _ _ range (again v f ds e n r counts k quiet left rest) =
    let s = again-spent v f e n r counts range k quiet left in
    omega (arith, s.0, spent-Unheard ds n s.1 rest)

-- An update whose failures count is not delivered for ever: from an entry with valid counters it is
-- heard or abandoned within `max_delivery_attempts` times `max_delivery_deferrals` decisions,
-- whatever the views and the failures are.
pub length-Unheard :
    (ds : List (View × Failure)) (e : RunnerEntryV6)
    → bad_counters e ≡ false
    → Unheard ds e
    → length ds < max_delivery_attempts * max_delivery_deferrals
unfolding bad_counters
length-Unheard ds e good u =
    let range : InRange e = ground arith in omega (arith, spent-Unheard ds e range u)
