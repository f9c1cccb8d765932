-- ===== src/Host/Reachable.antt =====
-- What holds of the host whatever a kernel calls, refused or not, and whatever order updates are rolled
-- back (native/strategy_core_v3/src/kernel_v6.rs).
use strategy_core.Common.{
  ℕ, ◌≡◌, ◌+◌, ◌≤◌, refl, sym, ap, ◌∙◌, max, not, Option, ok, List, [], ◌∷◌, ◌++◌, length, count_if,
  ◌==◌, String, subst,
}
use strategy_core.Wire.Bounds.{max_strategy_commands, max_runner_entries, max_decision_plan_rows}
use strategy_core.Wire.Orders.{RunnerEntryV6, is_live}
use strategy_core.Wire.Commands.{CancelTargetV6, StrategyCommandV6}
use strategy_core.Plan.Rows.{DeploymentModeV6, total, add_all, decision_plan_rows_v6}
use strategy_core.Host.State.{HostOutput, KernelHost, begin_update, end_update}
use strategy_core.Host.Admission.{EncodedLen, next_ordinal, issue_broker_command}
use strategy_core.Host.Cancels.{mark_target, mark_everything}
use strategy_core.Host.Calls.{output}
use strategy_core.Host.Effects.{Effect, refused, noted, pushed, placed, cancelled, all_cancelled}
use strategy_core.Host.Outcomes.{call-Effect}
use strategy_core.Host.Called.{Called, begun, called, recorded, unit_begun, unit_ended, rolled_back}
use strategy_core.Host.Admits.{
  Fresh, Admits, Admits-other, Issued-Admits, next_ordinal-room, issue_broker_command-Issued,
  pushed-eq, pushed-Admits, rolled_back-Admits, begun-Admits,
}

issued-Admits :
    (len : EncodedLen) (start h h1 : KernelHost) (c : StrategyCommandV6) (e : RunnerEntryV6) (n : ℕ)
    → Admits start h
    → next_ordinal h ≡ ok n
    → issue_broker_command len h c e ≡ ok h1
    → Admits start h1
issued-Admits len start h h1 c e n a had out =
    Issued-Admits start h h1 c e a (next_ordinal-room h n had)
      (issue_broker_command-Issued len h h1 c e out)

mark_target-Admits :
    (start h : KernelHost) (found : CancelTargetV6)
    → Admits start h
    → Admits start (mark_target h found)
unfolding mark_target
mark_target-Admits start h (CancelTargetV6.same_decision client) a =
    Admits-other start h _ refl refl refl refl refl a
mark_target-Admits start h (CancelTargetV6.order order_id revision) a =
    Admits-other start h _ refl refl refl refl refl a

mark_everything-Admits :
    (start h h' : KernelHost) → Admits start h' → Admits start (mark_everything h h')
unfolding mark_everything
mark_everything-Admits start h h' a = Admits-other start h' _ refl refl refl refl refl a

Effect-Admits :
    (len : EncodedLen) (start h h' : KernelHost)
    → Admits start h
    → Effect len h h'
    → Admits start h'
Effect-Admits len start h h' a (refused d same) =
    subst (Admits start) (sym same) (Admits-other start h _ refl refl refl refl refl a)
Effect-Admits len start h h' a (noted o same) =
    subst (Admits start) (sym same) (Admits-other start h _ refl refl refl refl refl a)
Effect-Admits len start h h' a (pushed n c h1 keys had other id valid out same) =
    subst (Admits start)
      (sym (
        same
        ∙ ap {A = KernelHost} (λ k. record k { timer_keys = keys }) (pushed-eq len h h1 c out)))
      (Admits-other start (record h { commands = h.commands ++ c ∷ [] }) _ refl refl refl refl refl
        (pushed-Admits start h c a (next_ordinal-room h n had) other))
Effect-Admits len start h h' a (placed n request order commitment h1 had p out same) =
    subst (Admits start) (sym same) (
      Admits-other start h1 _ refl refl refl refl refl
        (issued-Admits len start h h1 _ _ n a had out))
Effect-Admits len start h h' a (cancelled n target found e h1 had made out same) =
    subst (Admits start) (sym same)
      (mark_target-Admits start h1 found (issued-Admits len start h h1 _ e n a had out))
Effect-Admits len start h h' a (all_cancelled n h1 had out same) =
    subst (Admits start) (sym same)
      (mark_everything-Admits start h h1 (issued-Admits len start h h1 _ _ n a had out))

noted-Admits : (start h : KernelHost) (o : HostOutput) → Admits start h → Admits start (output h o)
unfolding output
noted-Admits start h o a = Admits-other start h _ refl refl refl refl refl a

unit_begun-Admits :
    (start h : KernelHost) (unit : Option _) → Admits start h → Admits start (begin_update h unit).1
unfolding begin_update
unit_begun-Admits start h unit a = Admits-other start h _ refl refl refl refl refl a

unit_ended-Admits : (start h : KernelHost) → Admits start h → Admits start (end_update h).1
unfolding end_update
unit_ended-Admits start h a = Admits-other start h _ refl refl refl refl refl a

module _ (len : EncodedLen) (price_micros : ℕ → Option ℕ) (start : KernelHost) where
  Called-Admits :
      (h : KernelHost) → Admits start start → Called len price_micros start h → Admits start h
  Called-Admits h a begun = a
  Called-Admits _ a (called h c r) =
      Effect-Admits len start h _ (Called-Admits h a r) (call-Effect len h price_micros c)
  Called-Admits _ a (recorded h o r) = noted-Admits start h o (Called-Admits h a r)
  Called-Admits _ a (unit_begun h unit r) = unit_begun-Admits start h unit (Called-Admits h a r)
  Called-Admits _ a (unit_ended h r) = unit_ended-Admits start h (Called-Admits h a r)
  Called-Admits _ a (rolled_back h before r t) =
      rolled_back-Admits start h before (Called-Admits h a r) (Called-Admits before a t)

  -- From a host with no command and with the rows of its Broker detail alone, whatever a kernel calls,
  -- refused or not, and whatever order updates are rolled back: the decision carries at most
  -- `max_strategy_commands` commands; the plan rows of the commands that are left, counted anew as the
  -- result's validator counts them, are within `max_decision_plan_rows`; and the live entries of the
  -- runner section, with those that failed updates could bring back, are at most `max_runner_entries`
  -- or no more than at the start.
  pub decision_plan_rows_v6-Called :
      (acknowledged : List String) (mode : DeploymentModeV6) (h : KernelHost)
      → Fresh (not (length acknowledged == 0)) mode start
      → Called len price_micros start h
      → (length h.commands ≤ max_strategy_commands)
        × (decision_plan_rows_v6 start.broker mode acknowledged h.commands ≤ max_decision_plan_rows)
        × (count_if is_live h.runner + h.reinstatable_live
            ≤ max max_runner_entries (count_if is_live start.runner + start.reinstatable_live))
  unfolding decision_plan_rows_v6
  decision_plan_rows_v6-Called acknowledged mode h f r =
      let acknowledges = not (length acknowledged == 0) in
      let a = Called-Admits h (begun-Admits acknowledges mode start f) r in
      let rows_eq = a.counted ∙ ap (λ s. add_all s h.commands start.broker) f.no_rows in
      (a.few_commands, subst (λ s. total s ≤ max_decision_plan_rows) rows_eq a.few_rows, a.few_live)
