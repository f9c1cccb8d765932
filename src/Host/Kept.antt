-- ===== src/Host/Kept.antt =====
-- What holds of a decision's commands, open orders and finances, whatever its kernel calls
-- (native/strategy_core_v3/src/kernel_v6.rs).
use strategy_core.Common.{
  ℕ, ◌+◌, ◌-◌, ◌^◌, ◌≤◌, ◌≡◌, refl, sym, ap, subst, ◌∙◌, min, max, true, false, String, Option, [],
  ◌∷◌, ◌++◌, length, All, contains, ok, arith,
}
use strategy_core.Wire.Orders.{RunnerEntryV6}
use strategy_core.Wire.Commands.{StrategyCommandV6, command_id}
use strategy_core.Wire.Text.{valid_identifier, valid_provider_client_id}
use strategy_core.Wire.Request.{validate_command}
use strategy_core.Plan.Rows.{max_open_orders, open_orders}
use strategy_core.Host.Calls.{output}
use strategy_core.Host.State.{
  HostOutput, KernelHost, buying_power_micros, remaining_event_allowance_micros, save, restore,
  begin_update, end_update,
}
use strategy_core.Host.Admission.{EncodedLen, next_ordinal, issue_broker_command}
use strategy_core.Host.Admits.{pushed-eq}
use strategy_core.Host.Orders.{client_in_use}
use strategy_core.Host.Effects.{
  Effect, IdsValid, refused, noted, pushed, placed, cancelled, all_cancelled,
}
use strategy_core.Host.Outcomes.{call-Effect}
use strategy_core.Host.Sound.{
  Numbered, IsValid, clients, commitments, Distinct, reported, Sound, contains-clients,
  length-clients,
}
use strategy_core.Host.Called.{
  Begun, Called, begun, called, recorded, unit_begun, unit_ended, rolled_back, issued-eq,
  Sound-other, Sound-command, mark_target-Sound, mark_everything-Sound, clients-All,
  find_target-valid, cancel-IsValid, cancel_all-IsValid, place-named, booked-Sound,
}

-- A command that is issued, before it is booked.
issued-Sound :
    (len : EncodedLen) (start h h1 : KernelHost) (c : StrategyCommandV6) (e : RunnerEntryV6) (n : ℕ)
    → Sound start h
    → next_ordinal h ≡ ok n
    → command_id c ≡ h.context.ids.command_id n
    → IsValid c
    → issue_broker_command len h c e ≡ ok h1
    → Sound start h1
issued-Sound len start h h1 c e n s had id valid out =
    subst (Sound start) (sym (issued-eq len h h1 c e out)) (
      Sound-other start (record h { commands = h.commands ++ c ∷ [] }) _ refl refl refl refl refl
        refl (Sound-command start h c n s had id valid))

fresh_client :
    (start h : KernelHost) (client : String)
    → h.broker ≡ start.broker
    → client_in_use h client ≡ false
    → (contains client (clients h.provisional) ≡ false)
      × (reported start.broker.orders client ≡ false)
unfolding client_in_use
fresh_client start h client same fresh = (
  contains-clients h.provisional client ∙ ground arith,
  subst (λ b. reported b.orders client ≡ false) same (ground arith),
)

Effect-Sound :
    (len : EncodedLen) (start h h' : KernelHost)
    → Begun start
    → Sound start h
    → Effect len h h'
    → Sound start h'
unfolding command_id
Effect-Sound len start h h' b s (refused d same) =
    subst (Sound start) (sym same) (Sound-other start h _ refl refl refl refl refl refl s)
Effect-Sound len start h h' b s (noted o same) =
    subst (Sound start) (sym same) (Sound-other start h _ refl refl refl refl refl refl s)
Effect-Sound len start h h' b s (pushed n c h1 keys had other id valid out same) =
    subst (Sound start)
      (sym (
        same
        ∙ ap {A = KernelHost} (λ k. record k { timer_keys = keys }) (pushed-eq len h h1 c out)))
      (Sound-other start (record h { commands = h.commands ++ c ∷ [] }) _ refl refl refl refl refl
        refl
        (Sound-command start h c n s had id
          (valid (subst (λ x. IdsValid x.ids) (sym s.same_context) b.ids))))
Effect-Sound len start h h' b s (placed n request order commitment h1 had p out same) =
    let (fresh, unreported) = fresh_client start h order.provider_client_id s.same_broker p.fresh in
    let i = issued-eq len h h1 _ _ out in
    let provisional_eq = ap (λ (k : KernelHost). k.provisional) i in
    subst (Sound start) (sym same) (
      booked-Sound start h1 request order commitment
        (issued-Sound len start h h1 _ _ n s had p.id p.valid out)
        (omega (
          arith,
          p.room,
          ap (λ x. open_orders x) s.same_broker,
          ap (λ x. max_open_orders x.deployment_mode) s.same_context,
          ap length provisional_eq,
        ))
        (subst (λ os. contains order.provider_client_id (clients os) ≡ false) (sym provisional_eq)
          fresh)
        unreported (place-named order p.valid))
Effect-Sound len start h h' b s (cancelled n target found e h1 had made out same) =
    let id = b.ids.commands n in
    subst (Sound start) (sym same) (
      mark_target-Sound start h1 found (
        issued-Sound len start h h1 _ e n s had refl
          (cancel-IsValid (h.context.ids.command_id n) found
            (subst (λ x. valid_identifier (x.ids.command_id n) ≡ true) (sym s.same_context) id)
            (find_target-valid h (h.context.ids.command_id n) target found e
              (subst (λ x. All (λ o. valid_identifier o.order_id ≡ true) x.orders)
                (sym s.same_broker) b.order_ids)
              (clients-All (λ x. valid_provider_client_id x ≡ true) h.provisional s.named) made))
          out))
Effect-Sound len start h h' b s (all_cancelled n h1 had out same) = subst (Sound start) (sym same) (
    mark_everything-Sound start h h1 (
      issued-Sound len start h h1 _ _ n s had refl
        (cancel_all-IsValid (h.context.ids.command_id n) (
          subst (λ x. valid_identifier (x.ids.command_id n) ≡ true) (sym s.same_context)
            (b.ids.commands n)))
        out))

Begun-Sound : (start : KernelHost) → Begun start → Sound start start
Begun-Sound start b = record {
  same_broker = refl;
  same_context = refl;
  numbered = subst (Numbered start.context.ids 0) (sym b.no_commands) tt;
  valid = subst (All IsValid) (sym b.no_commands) tt;
  few_open = rw (b.no_orders) (omega arith);
  distinct = rw (b.no_orders) tt;
  unreported = rw (b.no_orders) tt;
  named = rw (b.no_orders) tt;
  finances = rw (b.no_orders) (ground (arith, b.u64_commitment, b.u64_reserved));
}

rolled_back-Sound :
    (start h before : KernelHost)
    → Sound start h
    → Sound start before
    → Sound start (restore h (save before))
unfolding restore save
rolled_back-Sound start h before s t = record {
  same_broker = s.same_broker;
  same_context = s.same_context;
  numbered = t.numbered;
  valid = t.valid;
  few_open = t.few_open;
  distinct = t.distinct;
  unreported = t.unreported;
  named = t.named;
  finances = t.finances;
}

recorded-Sound : (start h : KernelHost) (o : HostOutput) → Sound start h → Sound start (output h o)
unfolding output
recorded-Sound start h o s = Sound-other start h _ refl refl refl refl refl refl s

unit_begun-Sound :
    (start h : KernelHost) (unit : Option _) → Sound start h → Sound start (begin_update h unit).1
unfolding begin_update
unit_begun-Sound start h unit s = Sound-other start h _ refl refl refl refl refl refl s

unit_ended-Sound : (start h : KernelHost) → Sound start h → Sound start (end_update h).1
unfolding end_update
unit_ended-Sound start h s = Sound-other start h _ refl refl refl refl refl refl s

module _ (len : EncodedLen) (price_micros : ℕ → Option ℕ) (start : KernelHost) where
  Called-Sound : (h : KernelHost) → Begun start → Called len price_micros start h → Sound start h
  Called-Sound h b begun = Begun-Sound start b
  Called-Sound _ b (called h c r) =
      Effect-Sound len start h _ b (Called-Sound h b r) (call-Effect len h price_micros c)
  Called-Sound _ b (recorded h o r) = recorded-Sound start h o (Called-Sound h b r)
  Called-Sound _ b (unit_begun h unit r) = unit_begun-Sound start h unit (Called-Sound h b r)
  Called-Sound _ b (unit_ended h r) = unit_ended-Sound start h (Called-Sound h b r)
  Called-Sound _ b (rolled_back h before r t) =
      rolled_back-Sound start h before (Called-Sound h b r) (Called-Sound before b t)

  -- From a host as a decision begins with it (no command and no order of its own, valid ids, an
  -- order view of valid order ids, a commitment and a reservation of 64 bits), whatever a kernel
  -- calls: every command that the host holds passes `validate_command`, and the command at each
  -- ordinal carries the id derived for that ordinal.
  pub validate_command-Called :
      (h : KernelHost)
      → Begun start
      → Called len price_micros start h
      → All (λ c. validate_command c ≡ ok tt) h.commands × Numbered start.context.ids 0 h.commands
  validate_command-Called h b r = let s = Called-Sound h b r in (s.valid, s.numbered)

  -- From a host as a decision begins with it (no command and no order of its own, valid ids, an
  -- order view of valid order ids, a commitment and a reservation of 64 bits), whatever a kernel
  -- calls: the Broker's open orders and those placed in the decision are within the mode's bound,
  -- or no more than the Broker already has, and the client order ids of the placed orders differ
  -- from one another and from those of the Broker's orders.
  pub open_orders-Called :
      (h : KernelHost)
      → Begun start
      → Called len price_micros start h
      → (length h.provisional + open_orders start.broker
          ≤ max (open_orders start.broker) (max_open_orders start.context.deployment_mode))
        × Distinct (clients h.provisional)
        × All (λ id. reported start.broker.orders id ≡ false) (clients h.provisional)
  open_orders-Called h b r =
      let s = Called-Sound h b r in
      (omega (arith, s.few_open, length-clients h.provisional), s.distinct, s.unreported)

  -- From a host as a decision begins with it (no command and no order of its own, valid ids, an
  -- order view of valid order ids, a commitment and a reservation of 64 bits), whatever a kernel
  -- calls: the buying power is what the allowance and the balance leave once the commitments of
  -- the orders placed in the decision, and of no other, are added to what was committed and
  -- reserved at the start, each sum capped at 2 ^ 64 - 1.
  pub buying_power_micros-Called :
      (h : KernelHost)
      → Begun start
      → Called len price_micros start h
      → buying_power_micros h.finances
        ≡ min
            (start.finances.allowance_limit_micros
              - min
                  (start.finances.current_commitment_micros + commitments h.provisional)
                  (2 ^ 64 - 1))
            (start.finances.provider_available_balance_micros
              - min
                  (start.finances.locally_reserved_cash_micros + commitments h.provisional)
                  (2 ^ 64 - 1))
  unfolding buying_power_micros remaining_event_allowance_micros
  buying_power_micros-Called h b r = ap (λ f. buying_power_micros f) (Called-Sound h b r).finances
