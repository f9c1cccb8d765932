-- ===== src/Host/Admits.antt =====
-- The bounds of a decision, and that what a call issues keeps them
-- (native/strategy_core_v3/src/kernel_v6.rs).
use strategy_core.Common.{
  ℕ, ◌+◌, ◌≤◌, ◌<◌, ◌≡◌, refl, sym, ap, subst, ◌∙◌, max, Bool, none, List, [], ◌∷◌, ◌++◌, length,
  length-append, count_if, count_if-append, ok, arith,
}
use strategy_core.Wire.Bounds.{max_strategy_commands, max_runner_entries, max_decision_plan_rows}
use strategy_core.Wire.Orders.{BrokerDetailV6, RunnerEntryV6, is_live}
use strategy_core.Wire.Commands.{StrategyCommandV6, broker_kind}
use strategy_core.Plan.Rows.{DecisionPlanRows, DeploymentModeV6, new_rows, total, add, add_all}
use strategy_core.Host.State.{KernelHost, save, restore}
use strategy_core.Host.Admission.{
  EncodedLen, capacity_error, next_ordinal, check_result_bytes, push_command, issue_broker_command,
}

-- The host of a decision before its first call (`from_inputs` and `reserve`).
pub record Fresh (acknowledgements : Bool) (mode : DeploymentModeV6) (h : KernelHost) : Type 0 where
  pub no_commands : h.commands ≡ []
  pub no_rows : h.rows ≡ new_rows h.broker acknowledgements mode

-- The bounds of a decision, from the host it starts with.
pub record Admits (start h : KernelHost) : Type 0 where
  pub same_broker : h.broker ≡ start.broker
  pub same_reserve : h.reinstatable_live ≡ start.reinstatable_live
  pub few_commands : length h.commands ≤ max_strategy_commands
  -- The rows counted as commands are issued are those of the commands.
  pub counted : h.rows ≡ add_all start.rows h.commands start.broker
  pub few_rows : total h.rows ≤ max_decision_plan_rows
  pub few_live :
      count_if is_live h.runner + h.reinstatable_live
      ≤ max max_runner_entries (count_if is_live start.runner + start.reinstatable_live)

add_all-append :
    (r : DecisionPlanRows) (cs : List StrategyCommandV6) (c : StrategyCommandV6)
    (broker : BrokerDetailV6)
    → add_all r (cs ++ c ∷ []) broker ≡ add (add_all r cs broker) c broker
unfolding add_all
add_all-append r [] c broker = refl
add_all-append r (d ∷ cs) c broker = add_all-append (add r d broker) cs c broker

add-other :
    (r : DecisionPlanRows) (c : StrategyCommandV6) (broker : BrokerDetailV6)
    → broker_kind c ≡ none
    → add r c broker ≡ r
unfolding add
add-other r (StrategyCommandV6.place_order placed) broker h = cc
add-other r (StrategyCommandV6.cancel_order id target) broker h = cc
add-other r (StrategyCommandV6.cancel_all_orders id) broker h = cc
add-other r (StrategyCommandV6.schedule_timer id key at generation semantics) broker h = refl
add-other r (StrategyCommandV6.cancel_timer id key generation) broker h = refl
add-other r (StrategyCommandV6.stop id reason) broker h = refl
add-other r (StrategyCommandV6.external_request id kind target payload timeout) broker h = refl

-- What an admitted Broker command changes, and under which bounds.
pub record Issued (h h' : KernelHost) (c : StrategyCommandV6) (e : RunnerEntryV6) : Type 0 where
  pub broker : h'.broker ≡ h.broker
  pub reserve : h'.reinstatable_live ≡ h.reinstatable_live
  pub commands : h'.commands ≡ h.commands ++ c ∷ []
  pub runner : h'.runner ≡ h.runner ++ e ∷ []
  pub rows : h'.rows ≡ add h.rows c h.broker
  pub few_rows : total (add h.rows c h.broker) ≤ max_decision_plan_rows
  pub few_live : count_if is_live h.runner + h.reinstatable_live < max_runner_entries

pub issue_broker_command-Issued :
    (len : EncodedLen) (h h' : KernelHost) (c : StrategyCommandV6) (e : RunnerEntryV6)
    → issue_broker_command len h c e ≡ ok h'
    → Issued h h' c e
unfolding issue_broker_command check_result_bytes capacity_error
issue_broker_command-Issued len h h' c e k = record {
  broker = ground arith;
  reserve = ground arith;
  commands = ground arith;
  runner = ground arith;
  rows = ground arith;
  few_rows = ground arith;
  few_live = ground arith;
}

pub next_ordinal-room :
    (h : KernelHost) (n : ℕ) → next_ordinal h ≡ ok n → length h.commands < max_strategy_commands
unfolding next_ordinal capacity_error
next_ordinal-room h n k = ground arith

-- Only the commands, the rows, the runner entries and what never changes are read.
pub Admits-other :
    (start h h' : KernelHost)
    → h'.broker ≡ h.broker
    → h'.reinstatable_live ≡ h.reinstatable_live
    → h'.commands ≡ h.commands
    → h'.rows ≡ h.rows
    → h'.runner ≡ h.runner
    → Admits start h
    → Admits start h'
Admits-other start h h' broker reserve commands rows runner a = record {
  same_broker = broker ∙ a.same_broker;
  same_reserve = reserve ∙ a.same_reserve;
  few_commands = omega (arith, a.few_commands, ap length commands);
  counted = rows ∙ (a.counted ∙ ap (λ cs. add_all start.rows cs start.broker) (sym commands));
  few_rows = subst (λ r. total r ≤ max_decision_plan_rows) (sym rows) a.few_rows;
  few_live = omega (arith, a.few_live, reserve, ap (count_if is_live) runner);
}

pub Issued-Admits :
    (start h h' : KernelHost) (c : StrategyCommandV6) (e : RunnerEntryV6)
    → Admits start h
    → length h.commands < max_strategy_commands
    → Issued h h' c e
    → Admits start h'
Issued-Admits start h h' c e a room i = record {
  same_broker = i.broker ∙ a.same_broker;
  same_reserve = i.reserve ∙ a.same_reserve;
  few_commands = omega (arith, room, ap length i.commands, length-append h.commands (c ∷ []));
  counted =
      i.rows
      ∙ (ap (λ r. add r c h.broker) a.counted
          ∙ (ap (λ b. add (add_all start.rows h.commands start.broker) c b) a.same_broker
              ∙ (sym (add_all-append start.rows h.commands c start.broker)
                  ∙ ap (λ cs. add_all start.rows cs start.broker) (sym i.commands))));
  few_rows = rw (i.rows) i.few_rows;
  few_live = ground (
    arith,
    i.few_live,
    a.few_live,
    i.reserve,
    ap (count_if is_live) i.runner,
    count_if-append is_live h.runner (e ∷ []),
  );
}

-- What a pushed command changes.
pub pushed-eq :
    (len : EncodedLen) (h h' : KernelHost) (c : StrategyCommandV6)
    → push_command len h c ≡ ok h'
    → h' ≡ record h { commands = h.commands ++ c ∷ [] }
unfolding push_command check_result_bytes capacity_error
pushed-eq len h h' c k = ground arith

pub pushed-Admits :
    (start h : KernelHost) (c : StrategyCommandV6)
    → Admits start h
    → length h.commands < max_strategy_commands
    → broker_kind c ≡ none
    → Admits start (record h { commands = h.commands ++ c ∷ [] })
pushed-Admits start h c a room other = record {
  same_broker = a.same_broker;
  same_reserve = a.same_reserve;
  few_commands = omega (arith, room, length-append h.commands (c ∷ []));
  counted =
      a.counted
      ∙ (sym (add-other (add_all start.rows h.commands start.broker) c start.broker other)
          ∙ sym (add_all-append start.rows h.commands c start.broker));
  few_rows = a.few_rows;
  few_live = a.few_live;
}

pub rolled_back-Admits :
    (start h before : KernelHost)
    → Admits start h
    → Admits start before
    → Admits start (restore h (save before))
unfolding restore save
rolled_back-Admits start h before a b = record {
  same_broker = a.same_broker;
  same_reserve = a.same_reserve;
  few_commands = b.few_commands;
  counted = b.counted;
  few_rows = b.few_rows;
  few_live = omega (arith, b.few_live, a.same_reserve, b.same_reserve);
}

pub begun-Admits :
    (acknowledgements : Bool) (mode : DeploymentModeV6) (start : KernelHost)
    → Fresh acknowledgements mode start
    → Admits start start
unfolding add_all new_rows total
begun-Admits acknowledgements mode start f = record {
  same_broker = refl;
  same_reserve = refl;
  few_commands = ground (arith, f.no_commands);
  counted = ap (λ cs. add_all start.rows cs start.broker) (sym f.no_commands);
  few_rows = rw (f.no_rows) (ground arith);
  few_live = ground arith;
}
