-- ===== src/Host/Effects.antt =====
-- What each call of a kernel does to its host, in the terms of the admission
-- (native/strategy_core_v3/src/kernel_v6.rs).
use strategy_core.Common.{
  ℕ, ◌<◌, ◌≡◌, true, false, String, Option, none, List, [], ◌∷◌, ◌++◌, Result, ok, err, >>=-eq-ok,
  arith,
}
use strategy_core.Wire.Orders.{RunnerEntryV6}
use strategy_core.Wire.Commands.{
  CancelTargetV6, StrategyCommandV6, PlaceOrderV6, broker_kind, command_id,
}
use strategy_core.Actions.{PlaceOrderRequest, CancelTarget}
use strategy_core.Wire.Text.{valid_identifier}
use strategy_core.Host.State.{Ids, KernelError, KernelHost, HostOutput}
use strategy_core.Host.Admission.{EncodedLen, next_ordinal, push_command, issue_broker_command}
use strategy_core.Host.Orders.{
  denied, prepared, place_entry_of, booked, place, client_in_use, checked_client, host_open_orders,
}
use strategy_core.Wire.Request.{validate_command}
use strategy_core.Plan.Rows.{max_open_orders}
use strategy_core.Host.Cancels.{find_target, mark_target, cancel_all_entry, mark_everything}

-- What a prepared place has.
pub record Prepared (h : KernelHost) (n : ℕ) (order : PlaceOrderV6) : Type 0 where
  pub id : order.command_id ≡ h.context.ids.command_id n
  pub valid : validate_command (StrategyCommandV6.place_order order) ≡ ok tt
  pub room : host_open_orders h < max_open_orders h.context.deployment_mode
  pub fresh : client_in_use h order.provider_client_id ≡ false

pub prepared-Prepared :
    (price_micros : ℕ → Option ℕ) (h : KernelHost) (n : ℕ) (request : PlaceOrderRequest)
    (order : PlaceOrderV6) (commitment : ℕ)
    → prepared price_micros h n request ≡ ok (order, commitment)
    → Prepared h n order
unfolding prepared checked_client
prepared-Prepared price_micros h n request order commitment e = record {
  id = ground arith;
  valid = ground arith;
  room = ground arith;
  fresh = ground arith;
}

-- Ids and a generation that the validators accept.
pub record IdsValid (ids : Ids) : Type 0 where
  pub commands : (n : ℕ) → valid_identifier (ids.command_id n) ≡ true
  pub generation : valid_identifier ids.timer_generation ≡ true

-- A call is refused, adds an output, adds a command that is none of the Broker's, or issues one and
-- books it.
pub data Effect (len : EncodedLen) (h : KernelHost) (h' : KernelHost) : Type 0 where
  refused : (d : Option KernelError) → h' ≡ record h { deferrable = d } → Effect len h h'
  noted : (o : HostOutput) → h' ≡ record h { outputs = h.outputs ++ o ∷ [] } → Effect len h h'
  pushed :
      (n : ℕ) (c : StrategyCommandV6) (h1 : KernelHost) (keys : List String)
      → next_ordinal h ≡ ok n
      → broker_kind c ≡ none
      → command_id c ≡ h.context.ids.command_id n
      → (IdsValid h.context.ids → validate_command c ≡ ok tt)
      → push_command len h c ≡ ok h1
      → h' ≡ record h1 { timer_keys = keys }
      → Effect len h h'
  placed :
      (n : ℕ) (request : PlaceOrderRequest) (order : PlaceOrderV6) (commitment : ℕ)
      (h1 : KernelHost)
      → next_ordinal h ≡ ok n
      → Prepared h n order
      → issue_broker_command len h (StrategyCommandV6.place_order order) (place_entry_of h order)
        ≡ ok h1
      → h' ≡ booked h1 request order commitment
      → Effect len h h'
  cancelled :
      (n : ℕ) (target : CancelTarget) (found : CancelTargetV6) (e : RunnerEntryV6) (h1 : KernelHost)
      → next_ordinal h ≡ ok n
      → find_target h (h.context.ids.command_id n) target ≡ ok (found, e)
      → issue_broker_command len h
          (StrategyCommandV6.cancel_order (h.context.ids.command_id n) found)
          e
        ≡ ok h1
      → h' ≡ mark_target h1 found
      → Effect len h h'
  all_cancelled :
      (n : ℕ) (h1 : KernelHost)
      → next_ordinal h ≡ ok n
      → issue_broker_command len h
          (StrategyCommandV6.cancel_all_orders (h.context.ids.command_id n))
          (cancel_all_entry h (h.context.ids.command_id n))
        ≡ ok h1
      → h' ≡ mark_everything h h1
      → Effect len h h'

pub denied-ok :
    {A : Type 0} (h : KernelHost) (r : Result KernelError A) (a : A) → denied h r ≡ ok a → r ≡ ok a
denied-ok h (ok b) a e = ground arith
denied-ok h (err n) a e = cc

pub place-placed :
    (len : EncodedLen) (price_micros : ℕ → Option ℕ) (h : KernelHost) (request : PlaceOrderRequest)
    (ticket : String × String) (h' : KernelHost)
    → place len price_micros h request ≡ ok (ticket, h')
    → Effect len h h'
unfolding place
place-placed len price_micros h request ticket h' e =
    let (n, had, next) = >>=-eq-ok (next_ordinal h) _ e in
    let ((order, commitment), made, rest) =
      >>=-eq-ok (denied h (prepared price_micros h n request)) _ next in
    let (h1, out, last) = >>=-eq-ok (issue_broker_command len h _ _) _ rest in
    Effect.placed n request order commitment h1 had
      (prepared-Prepared price_micros h n request order commitment (denied-ok h _ _ made)) out
      (ground arith)
