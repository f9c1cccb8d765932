-- ===== src/Updates/Validated/Entry.antt =====
-- What an entry of the runner section must be, and its tests (the entry's part of
-- `validate_runner_section` in native/strategy_core_v3/src/decision_v6.rs).
use strategy_core.Common.{
  ◌≤◌, ◌<◌, ◌≡◌, ◌⊎◌, refl, true, false, String, Option, none, some, arith, is_some, is_none,
  is_none_or, not, ◌&&◌,
}
use strategy_core.Wire.Bounds.{
  max_delivery_attempts, max_delivery_deferrals, tombstone_expiry_views, i64_max,
}
use strategy_core.Wire.Orders.{
  BrokerCommandKindV6, OrderUpdateStatusV6, RunnerEntryV6, is_terminal_update,
}
use strategy_core.Wire.Text.{valid_identifier}
use strategy_core.Wire.Runner.{bad_counters, order_fields_valid, shape, shape_of}

-- The statuses of an order that may still change.
pub data Running : OrderUpdateStatusV6 → Type 0 where
  accepted : Running OrderUpdateStatusV6.accepted
  resting : Running OrderUpdateStatusV6.resting
  partially_filled : Running OrderUpdateStatusV6.partially_filled

-- An optional value that is there, and one that has a property if it is there.
abbrev pub Present : {A : Type 0} → Option A → Type 0
Present {A} o = (x : A) × (o ≡ some x)

abbrev pub IfPresent : {A : Type 0} → (A → Type 0) → Option A → Type 0
IfPresent P none = Unit
IfPresent P (some x) = P x

-- What an entry holds by its kind: a place its order, not seen to end; a cancel no status; and a
-- cancel of all nothing of an order.
abbrev pub Shaped : BrokerCommandKindV6 → RunnerEntryV6 → Type 0
Shaped BrokerCommandKindV6.place_order e =
    Present e.client_order_id
    × Present e.market_id
    × Present e.action
    × Present e.side
    × (0 < e.requested_quantity_hundredths)
    × IfPresent Running e.last_status
Shaped BrokerCommandKindV6.cancel_order e = e.last_status ≡ none
Shaped BrokerCommandKindV6.cancel_all_orders e =
    (e.last_status ≡ none)
    × (e.client_order_id ≡ none)
    × (e.order_id ≡ none)
    × (e.market_id ≡ none)
    × (e.action ≡ none)
    × (e.side ≡ none)
    × (e.requested_quantity_hundredths ≡ 0)
    × (e.filled_quantity_hundredths ≡ 0)

abbrev IsIdentifier : String → Type 0
IsIdentifier text = valid_identifier text ≡ true

-- An entry that a section may hold.
pub record Holds (e : RunnerEntryV6) : Type 0 where
  pub few_failures : e.delivery_failures < max_delivery_attempts
  pub few_deferrals : e.delivery_deferrals < max_delivery_deferrals
  pub few_absences : e.absent_views < tombstone_expiry_views
  pub tombstone : (e.vanished ≡ true) ⊎ ((e.vanished_revision ≡ 0) × (e.absent_views ≡ 0))
  pub command : IsIdentifier e.command_id
  pub client : IfPresent IsIdentifier e.client_order_id
  pub order : IfPresent IsIdentifier e.order_id
  pub market : IfPresent IsIdentifier e.market_id
  pub filled : e.filled_quantity_hundredths ≤ e.requested_quantity_hundredths
  pub fits : e.requested_quantity_hundredths ≤ i64_max
  pub shaped : Shaped e.kind e

Running-status : (s : OrderUpdateStatusV6) → Running s → is_terminal_update s ≡ false
Running-status _ Running.accepted = refl
Running-status _ Running.resting = refl
Running-status _ Running.partially_filled = refl

status-Running : (s : OrderUpdateStatusV6) → is_terminal_update s ≡ false → Running s
status-Running OrderUpdateStatusV6.accepted h = Running.accepted
status-Running OrderUpdateStatusV6.resting h = Running.resting
status-Running OrderUpdateStatusV6.partially_filled h = Running.partially_filled
status-Running _ h = cc

last-Running :
    (o : Option OrderUpdateStatusV6)
    → is_none_or o (λ s. not (is_terminal_update s)) ≡ true
    → IfPresent Running o
last-Running none h = tt
last-Running (some s) h = status-Running s (ground arith)

Running-last :
    (o : Option OrderUpdateStatusV6)
    → IfPresent Running o
    → is_none_or o (λ s. not (is_terminal_update s)) ≡ true
Running-last none h = refl
Running-last (some s) h = ground (arith, Running-status s h)

present : {A : Type 0} (o : Option A) → is_some o ≡ true → Present o
present none h = cc
present (some x) h = (x, refl)

absent : {A : Type 0} (o : Option A) → is_none o ≡ true → o ≡ none
absent none h = refl
absent (some x) h = cc

named : (o : Option String) → is_none_or o valid_identifier ≡ true → IfPresent IsIdentifier o
named none h = tt
named (some id) h = h

is_named : (o : Option String) → IfPresent IsIdentifier o → is_none_or o valid_identifier ≡ true
is_named none h = refl
is_named (some id) h = h

shape_of-Shaped : (k : BrokerCommandKindV6) (e : RunnerEntryV6) → shape_of k e ≡ true → Shaped k e
unfolding shape_of
shape_of-Shaped BrokerCommandKindV6.place_order e h = (
  present e.client_order_id (ground arith),
  present e.market_id (ground arith),
  present e.action (ground arith),
  present e.side (ground arith),
  ground arith,
  last-Running e.last_status (ground arith),
)
shape_of-Shaped BrokerCommandKindV6.cancel_order e h = absent e.last_status h
shape_of-Shaped BrokerCommandKindV6.cancel_all_orders e h = (
  absent e.last_status (ground arith),
  absent e.client_order_id (ground arith),
  absent e.order_id (ground arith),
  absent e.market_id (ground arith),
  absent e.action (ground arith),
  absent e.side (ground arith),
  ground arith,
  ground arith,
)

Shaped-shape_of : (k : BrokerCommandKindV6) (e : RunnerEntryV6) → Shaped k e → shape_of k e ≡ true
unfolding shape_of
Shaped-shape_of BrokerCommandKindV6.place_order e (client, market, action, side, some_left, last) =
    ground (arith, client.1, market.1, action.1, side.1, some_left, Running-last e.last_status last)
Shaped-shape_of BrokerCommandKindV6.cancel_order e h = ground (arith, h)
Shaped-shape_of BrokerCommandKindV6.cancel_all_orders e h = ground (arith, h)

pub check-Holds :
    (e : RunnerEntryV6)
    → bad_counters e ≡ false
    → valid_identifier e.command_id && order_fields_valid e && shape e ≡ true
    → Holds e
unfolding bad_counters order_fields_valid shape
check-Holds e counters checked = record {
  few_failures = ground arith;
  few_deferrals = ground arith;
  few_absences = ground arith;
  tombstone = ground arith;
  command = ground arith;
  client = named e.client_order_id (ground arith);
  order = named e.order_id (ground arith);
  market = named e.market_id (ground arith);
  filled = ground arith;
  fits = ground arith;
  shaped = shape_of-Shaped e.kind e (ground arith);
}

pub Holds-counters : (e : RunnerEntryV6) → Holds e → bad_counters e ≡ false
unfolding bad_counters
Holds-counters e h = ground (arith, h.few_failures, h.few_deferrals, h.few_absences, h.tombstone)

pub Holds-check :
    (e : RunnerEntryV6)
    → Holds e
    → valid_identifier e.command_id && order_fields_valid e && shape e ≡ true
unfolding order_fields_valid shape
Holds-check e h = ground (
  arith,
  h.command,
  is_named e.client_order_id h.client,
  is_named e.order_id h.order,
  is_named e.market_id h.market,
  h.filled,
  h.fits,
  Shaped-shape_of e.kind e h.shaped,
)
