-- ===== src/Host/Called.antt =====
-- A kernel's calls, one after another, with the updates that fail rolled back
-- (native/strategy_core_v3/src/kernel_v6.rs).
use strategy_core.Common.{
  ℕ, ◌+◌, ◌^◌, ◌<◌, ◌≡◌, refl, sym, ap, subst, ◌∙◌, Bool, true, false, String, Option, some, List,
  [], ◌∷◌, ◌++◌, length, All, All-append, contains, find, ok, arith, str_eq, Option-cases,
  Bool-cases, length-append, inl, inr,
}
use strategy_core.Wire.Orders.{RunnerEntryV6}
use strategy_core.Wire.Commands.{CancelTargetV6, StrategyCommandV6, PlaceOrderV6, command_id}
use strategy_core.Wire.Text.{valid_identifier, valid_provider_client_id}
use strategy_core.Wire.Request.{validate_command, validate_kind, bad_place, valid_target}
use strategy_core.Plan.Rows.{max_open_orders, open_orders, add}
use strategy_core.Actions.{PlaceOrderRequest, CancelTarget}
use strategy_core.Host.State.{
  HostOutput, KernelHost, UpdateStart, ProvisionalOrder, BrokerFinancialState, save, restore,
  begin_update, end_update,
}
use strategy_core.Host.Admission.{
  EncodedLen, capacity_error, next_ordinal, check_result_bytes, issue_broker_command,
}
use strategy_core.Host.Orders.{saturating_add_u64, committed, provisional_of, booked}
use strategy_core.Host.Cancels.{find_target, mark_target, mark_everything}
use strategy_core.Host.Calls.{Call, call, after, output}
use strategy_core.Host.Effects.{IdsValid}
use strategy_core.Host.Sound.{
  Numbered, IsValid, clients, commitments, Distinct, reported, Sound, Numbered-append,
  clients-append, commitments-append, Distinct-append, length-clients, mark_client-clients,
  mark_client-commitments, mark_all-clients, mark_all-commitments,
}

-- The host of a decision before its first call.
pub record Begun (h : KernelHost) : Type 0 where
  pub no_commands : h.commands ≡ []
  pub no_orders : h.provisional ≡ []
  pub ids : IdsValid h.context.ids
  pub order_ids : All (λ o. valid_identifier o.order_id ≡ true) h.broker.orders
  pub u64_commitment : h.finances.current_commitment_micros < 2 ^ 64
  pub u64_reserved : h.finances.locally_reserved_cash_micros < 2 ^ 64

-- The hosts that a kernel's calls reach, refused or not, in order updates or outside of them.
pub data Called (len : EncodedLen) (price_micros : ℕ → Option ℕ) (start : KernelHost)
    : KernelHost → Type 0 where
  begun : Called len price_micros start start
  called :
      (h : KernelHost) (c : Call)
      → Called len price_micros start h
      → Called len price_micros start (after (call len price_micros h c))
  recorded :
      (h : KernelHost) (o : HostOutput)
      → Called len price_micros start h
      → Called len price_micros start (output h o)
  unit_begun :
      (h : KernelHost) (unit : Option UpdateStart)
      → Called len price_micros start h
      → Called len price_micros start (begin_update h unit).1
  unit_ended :
      (h : KernelHost)
      → Called len price_micros start h
      → Called len price_micros start (end_update h).1
  rolled_back :
      (h before : KernelHost)
      → Called len price_micros start h
      → Called len price_micros start before
      → Called len price_micros start (restore h (save before))

next_ordinal-eq : (h : KernelHost) (n : ℕ) → next_ordinal h ≡ ok n → n ≡ length h.commands
unfolding next_ordinal capacity_error
next_ordinal-eq h n e = ground arith

pub issued-eq :
    (len : EncodedLen) (h h' : KernelHost) (c : StrategyCommandV6) (e : RunnerEntryV6)
    → issue_broker_command len h c e ≡ ok h'
    → h' ≡ record h {
      rows = add h.rows c h.broker;
      runner = h.runner ++ e ∷ [];
      commands = h.commands ++ c ∷ [];
    }
unfolding issue_broker_command check_result_bytes capacity_error
issued-eq len h h' c e k = ground arith

-- What admission and its marks read is not what soundness does.
pub Sound-other :
    (start h h' : KernelHost)
    → h'.broker ≡ h.broker
    → h'.context ≡ h.context
    → h'.commands ≡ h.commands
    → clients h'.provisional ≡ clients h.provisional
    → commitments h'.provisional ≡ commitments h.provisional
    → h'.finances ≡ h.finances
    → Sound start h
    → Sound start h'
Sound-other start h h' broker context commands same_clients same_commitments same_finances s =
    record {
      same_broker = broker ∙ s.same_broker;
      same_context = context ∙ s.same_context;
      numbered = subst (Numbered start.context.ids 0) (sym commands) s.numbered;
      valid = subst (All IsValid) (sym commands) s.valid;
      few_open = rw (same_clients) s.few_open;
      distinct = subst Distinct (sym same_clients) s.distinct;
      unreported =
          subst (All (λ id. reported start.broker.orders id ≡ false)) (sym same_clients)
            s.unreported;
      named = subst (All (λ id. valid_provider_client_id id ≡ true)) (sym same_clients) s.named;
      finances = rw (same_commitments, same_finances) s.finances;
    }

-- A valid command with the id of its ordinal is added.
pub Sound-command :
    (start h : KernelHost) (c : StrategyCommandV6) (n : ℕ)
    → Sound start h
    → next_ordinal h ≡ ok n
    → command_id c ≡ h.context.ids.command_id n
    → IsValid c
    → Sound start (record h { commands = h.commands ++ c ∷ [] })
Sound-command start h c n s had id valid = record {
  same_broker = s.same_broker;
  same_context = s.same_context;
  numbered = Numbered-append start.context.ids 0 h.commands c s.numbered (
      id
      ∙ (ap (λ k. h.context.ids.command_id k) (next_ordinal-eq h n had ∙ omega arith)
          ∙ ap (λ x. x.ids.command_id (0 + length h.commands)) s.same_context));
  valid = All-append IsValid h.commands (c ∷ []) s.valid (valid, tt);
  few_open = s.few_open;
  distinct = s.distinct;
  unreported = s.unreported;
  named = s.named;
  finances = s.finances;
}

-- A marked target changes no client order id and no commitment.
pub mark_target-Sound :
    (start h : KernelHost) (found : CancelTargetV6)
    → Sound start h
    → Sound start (mark_target h found)
unfolding mark_target
mark_target-Sound start h (CancelTargetV6.same_decision client) s =
    Sound-other start h _ refl refl refl (mark_client-clients client h.provisional)
      (mark_client-commitments client h.provisional) refl s
mark_target-Sound start h (CancelTargetV6.order order_id revision) s =
    Sound-other start h _ refl refl refl refl refl refl s

pub mark_everything-Sound :
    (start h h' : KernelHost) → Sound start h' → Sound start (mark_everything h h')
unfolding mark_everything
mark_everything-Sound start h h' s =
    Sound-other start h' _ refl refl refl (mark_all-clients h'.provisional)
      (mark_all-commitments h'.provisional) refl s

find-All {ℓ κ} :
    {A : Type ℓ} (P : A → Type κ) (p : A → Bool) (xs : List A) (x : A)
    → All P xs
    → find p xs ≡ some x
    → P x
find-All P p [] x h e = cc
find-All P p (y ∷ ys) x h e = elim (Bool-cases (p y)) [
  | inl hit ↦ subst P (ground arith) h.0
  | inr miss ↦ find-All P p ys x h.1 (ground arith)
]

pub clients-All :
    (P : String → Type 0) (os : List ProvisionalOrder)
    → All P (clients os)
    → All (λ o. P o.client_order_id) os
clients-All P [] h = tt
clients-All P (o ∷ os) h = (h.0, clients-All P os h.1)

-- The target of a cancel is valid: the Broker's order ids are, and so are this decision's client ids.
pub find_target-valid :
    (h : KernelHost) (id : String) (target : CancelTarget) (found : CancelTargetV6)
    (e : RunnerEntryV6)
    → All (λ o. valid_identifier o.order_id ≡ true) h.broker.orders
    → All (λ o. valid_provider_client_id o.client_order_id ≡ true) h.provisional
    → find_target h id target ≡ ok (found, e)
    → valid_target found ≡ true
unfolding find_target
find_target-valid h id (CancelTarget.order_id order_id) found e orders named k =
    elim (Option-cases (find (λ o. str_eq o.order_id order_id) h.broker.orders)) [
      | inl missing ↦ absurd (ground arith)
      | inr (o, there) ↦ ground (
        arith,
        find-All (λ o. valid_identifier o.order_id ≡ true) _ h.broker.orders o orders there,
      )
    ]
find_target-valid h id (CancelTarget.client_order_id client) found e orders named k =
    elim (Option-cases (find (λ o. str_eq o.client_order_id client) h.provisional)) [
      | inr (o, there) ↦ ground (
        arith,
        find-All (λ o. valid_provider_client_id o.client_order_id ≡ true) _ h.provisional o named
            there,
      )
      | inl other ↦
          elim (Option-cases (find (λ o. str_eq o.provider_client_id client) h.broker.orders)) [
            | inl missing ↦ absurd (ground arith)
            | inr (o, there) ↦ ground (
              arith,
              find-All (λ o. valid_identifier o.order_id ≡ true) _ h.broker.orders o orders there,
            )
          ]
    ]

pub cancel-IsValid :
    (id : String) (found : CancelTargetV6)
    → valid_identifier id ≡ true
    → valid_target found ≡ true
    → IsValid (StrategyCommandV6.cancel_order id found)
unfolding validate_command validate_kind command_id
cancel-IsValid id found h k = ground arith

pub cancel_all-IsValid :
    (id : String) → valid_identifier id ≡ true → IsValid (StrategyCommandV6.cancel_all_orders id)
unfolding validate_command validate_kind command_id
cancel_all-IsValid id h = ground arith

pub place-named :
    (order : PlaceOrderV6)
    → IsValid (StrategyCommandV6.place_order order)
    → valid_provider_client_id order.provider_client_id ≡ true
unfolding validate_command validate_kind bad_place
place-named order v = ground arith

saturating_twice :
    (a b c : ℕ) → saturating_add_u64 (saturating_add_u64 a b) c ≡ saturating_add_u64 a (b + c)
saturating_twice a b c = omega arith

committed-twice :
    (f : BrokerFinancialState) (b c : ℕ)
    → committed
        (record f {
          current_commitment_micros = saturating_add_u64 f.current_commitment_micros b;
          locally_reserved_cash_micros = saturating_add_u64 f.locally_reserved_cash_micros b;
        })
        c
      ≡ record f {
        current_commitment_micros = saturating_add_u64 f.current_commitment_micros (b + c);
        locally_reserved_cash_micros = saturating_add_u64 f.locally_reserved_cash_micros (b + c);
      }
unfolding committed
committed-twice f b c =
    rw
      (
        saturating_twice f.current_commitment_micros b c,
        saturating_twice f.locally_reserved_cash_micros b c,
      )
      refl

-- A place is booked.
pub booked-Sound :
    (start h : KernelHost) (request : PlaceOrderRequest) (order : PlaceOrderV6) (commitment : ℕ)
    → Sound start h
    → length h.provisional + open_orders start.broker
      < max_open_orders start.context.deployment_mode
    → contains order.provider_client_id (clients h.provisional) ≡ false
    → reported start.broker.orders order.provider_client_id ≡ false
    → valid_provider_client_id order.provider_client_id ≡ true
    → Sound start (booked h request order commitment)
booked-Sound start h request order commitment s room fresh unreported named =
    let o = provisional_of request order.provider_client_id commitment in
    let new = clients-append h.provisional o in
    record {
      same_broker = s.same_broker;
      same_context = s.same_context;
      numbered = s.numbered;
      valid = s.valid;
      few_open = rw new (
          omega (
            arith,
            length-append (clients h.provisional) (order.provider_client_id ∷ []),
            length-clients h.provisional,
            room,
          ));
      distinct =
          rw new
            (Distinct-append (clients h.provisional) order.provider_client_id s.distinct fresh);
      unreported = rw new (
          All-append (λ id. reported start.broker.orders id ≡ false) (clients h.provisional)
            (order.provider_client_id ∷ []) s.unreported (unreported, tt));
      named = rw new (
          All-append (λ id. valid_provider_client_id id ≡ true) (clients h.provisional)
            (order.provider_client_id ∷ []) s.named (named, tt));
      finances =
          ap (λ f. committed f commitment) s.finances
          ∙ (committed-twice start.finances (commitments h.provisional) commitment
              ∙ ap
                  (λ n. record start.finances {
                    current_commitment_micros =
                        saturating_add_u64 start.finances.current_commitment_micros n;
                    locally_reserved_cash_micros =
                        saturating_add_u64 start.finances.locally_reserved_cash_micros n;
                  })
                  (sym (commitments-append h.provisional o)));
    }
