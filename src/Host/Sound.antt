-- ===== src/Host/Sound.antt =====
-- What a kernel's calls keep of a decision: the ids, the validity and the client order ids of its
-- commands, its open orders and what they reserve (native/strategy_core_v3/src/kernel_v6.rs).
use strategy_core.Common.{
  ℕ, contains, suc, ◌+◌, ◌≤◌, ◌≡◌, refl, ap, ◌∙◌, max, Bool, true, false, String, List, [], ◌∷◌,
  ◌++◌, length, any, All, ok, arith, str_eq, eq_iff,
}
use strategy_core.Wire.Orders.{BrokerOrderV6}
use strategy_core.Wire.Commands.{StrategyCommandV6, command_id}
use strategy_core.Wire.Text.{valid_provider_client_id}
use strategy_core.Wire.Request.{validate_command}
use strategy_core.Plan.Rows.{max_open_orders, open_orders}
use strategy_core.Host.State.{Ids, KernelHost, ProvisionalOrder}
use strategy_core.Host.Orders.{saturating_add_u64}
use strategy_core.Host.Cancels.{mark_client, mark_all}

-- Commands carry the ids of their ordinals.
abbrev pub Numbered : Ids → ℕ → List StrategyCommandV6 → Type 0
Numbered ids n [] = Unit
Numbered ids n (c ∷ cs) = (command_id c ≡ ids.command_id n) × Numbered ids (suc n) cs

abbrev pub IsValid : StrategyCommandV6 → Type 0
IsValid c = validate_command c ≡ ok tt

abbrev pub clients : List ProvisionalOrder → List String
clients [] = []
clients (o ∷ os) = o.client_order_id ∷ clients os

-- What the orders of a decision commit.
abbrev pub commitments : List ProvisionalOrder → ℕ
commitments [] = 0
commitments (o ∷ os) = o.commitment_micros + commitments os

abbrev pub Distinct : List String → Type 0
Distinct [] = Unit
Distinct (id ∷ ids) = (contains id ids ≡ false) × Distinct ids

-- Whether the Broker reports an order with a client order id.
abbrev pub reported : List BrokerOrderV6 → String → Bool
reported orders client = any (λ b. str_eq b.provider_client_id client) orders

-- What a call leaves true of a decision that began with `start`.
pub record Sound (start h : KernelHost) : Type 0 where
  pub same_broker : h.broker ≡ start.broker
  pub same_context : h.context ≡ start.context
  pub numbered : Numbered start.context.ids 0 h.commands
  pub valid : All IsValid h.commands
  pub few_open :
      length (clients h.provisional) + open_orders start.broker
      ≤ max (open_orders start.broker) (max_open_orders start.context.deployment_mode)
  pub distinct : Distinct (clients h.provisional)
  pub unreported : All (λ id. reported start.broker.orders id ≡ false) (clients h.provisional)
  pub named : All (λ id. valid_provider_client_id id ≡ true) (clients h.provisional)
  pub finances : h.finances ≡ record start.finances {
    current_commitment_micros =
        saturating_add_u64 start.finances.current_commitment_micros (commitments h.provisional);
    locally_reserved_cash_micros =
        saturating_add_u64 start.finances.locally_reserved_cash_micros (commitments h.provisional);
  }

pub Numbered-append :
    (ids : Ids) (n : ℕ) (cs : List StrategyCommandV6) (c : StrategyCommandV6)
    → Numbered ids n cs
    → command_id c ≡ ids.command_id (n + length cs)
    → Numbered ids n (cs ++ c ∷ [])
Numbered-append ids n [] c h e = (e ∙ ap ids.command_id (omega arith), tt)
Numbered-append ids n (d ∷ cs) c h e =
    (h.0, Numbered-append ids (suc n) cs c h.1 (e ∙ ap ids.command_id (omega arith)))

pub clients-append :
    (os : List ProvisionalOrder) (o : ProvisionalOrder)
    → clients (os ++ o ∷ []) ≡ clients os ++ o.client_order_id ∷ []
clients-append [] o = refl
clients-append (p ∷ os) o = ap (λ ids. p.client_order_id ∷ ids) (clients-append os o)

pub commitments-append :
    (os : List ProvisionalOrder) (o : ProvisionalOrder)
    → commitments (os ++ o ∷ []) ≡ commitments os + o.commitment_micros
commitments-append [] o = omega arith
commitments-append (p ∷ os) o = omega (arith, commitments-append os o)

contains-append :
    (id new : String) (ids : List String)
    → contains id ids ≡ false
    → str_eq id new ≡ false
    → contains id (ids ++ new ∷ []) ≡ false
contains-append id new [] h e = ground (arith, eq_iff id new, eq_iff new id)
contains-append id new (x ∷ ids) h e = ground (arith, contains-append id new ids)

pub Distinct-append :
    (ids : List String) (new : String)
    → Distinct ids
    → contains new ids ≡ false
    → Distinct (ids ++ new ∷ [])
Distinct-append [] new h e = (refl, tt)
Distinct-append (id ∷ ids) new h e =
    (contains-append id new ids h.0 (ground arith), Distinct-append ids new h.1 (ground arith))

pub contains-clients :
    (os : List ProvisionalOrder) (id : String)
    → contains id (clients os) ≡ any (λ o. str_eq o.client_order_id id) os
contains-clients [] id = refl
contains-clients (o ∷ os) id = ground (arith, contains-clients os id)

pub length-clients : (os : List ProvisionalOrder) → length (clients os) ≡ length os
length-clients [] = refl
length-clients (o ∷ os) = ap suc (length-clients os)

-- Marks change neither the client order ids nor what the orders commit.
pub mark_client-clients :
    (id : String) (os : List ProvisionalOrder) → clients (mark_client id os) ≡ clients os
unfolding mark_client
mark_client-clients id [] = refl
mark_client-clients id (o ∷ os) = ground (arith, mark_client-clients id os)

pub mark_client-commitments :
    (id : String) (os : List ProvisionalOrder) → commitments (mark_client id os) ≡ commitments os
unfolding mark_client
mark_client-commitments id [] = refl
mark_client-commitments id (o ∷ os) = ground (arith, mark_client-commitments id os)

pub mark_all-clients : (os : List ProvisionalOrder) → clients (mark_all os) ≡ clients os
unfolding mark_all
mark_all-clients [] = refl
mark_all-clients (o ∷ os) = ap (λ ids. o.client_order_id ∷ ids) (mark_all-clients os)

pub mark_all-commitments : (os : List ProvisionalOrder) → commitments (mark_all os) ≡ commitments os
unfolding mark_all
mark_all-commitments [] = refl
mark_all-commitments (o ∷ os) = ap (λ n. o.commitment_micros + n) (mark_all-commitments os)
