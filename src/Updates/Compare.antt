-- ===== src/Updates/Compare.antt =====
-- One runner entry compared with the Broker's view (the loop body of `derive_from_section` in
-- kernel_v6/updates.rs).
use strategy_core.Common.{
  ℕ, ◌+◌, max, String, Bool, true, false, not, ◌&&◌, ◌||◌, Option, none, some, List, [], ◌∷◌,
  map_or, or_else, and_then, is_some_and, ltb, leb, ◌==◌, if◌then◌else◌, get,
}
use mathlib.Core.Option
use strategy_core.Wire.Bounds.{tombstone_expiry_views}
use strategy_core.Wire.Orders.{
  BrokerOrderV6, BrokerCommandKindV6, OrderUpdateStatusV6, RunnerEntryV6, OrderUpdateRecordV6,
  CommandReceiptV6, CommandOutcomeV6, is_terminal, is_terminal_update, update_status_eq, is_place,
}
use strategy_core.Updates.Records.{Note, note, seen_status, order_record, command_record}

-- The inputs of the comparison: the Broker's revision and orders, whether the orders are complete,
-- and the command receipts.
pub record View : Type 0 where
  pub revision : ℕ
  pub complete : Bool
  pub orders : List BrokerOrderV6
  pub receipts : List CommandReceiptV6

-- What the loop body makes of an entry: the entry after, the update to deliver, the notes pushed.
pub record Compared : Type 0 where
  pub next : Option RunnerEntryV6
  pub update : Option OrderUpdateRecordV6
  pub notes : List Note

-- `by_command.get(..)`, `by_order_id.get(..)` and `by_client.get(..)`
abbrev pub by_command : View → String → Option BrokerOrderV6
by_command v k = get (λ (o : BrokerOrderV6). o.command_id) k v.orders

abbrev pub by_order_id : View → String → Option BrokerOrderV6
by_order_id v k = get (λ (o : BrokerOrderV6). o.order_id) k v.orders

abbrev pub by_client : View → String → Option BrokerOrderV6
by_client v k = get (λ (o : BrokerOrderV6). o.provider_client_id) k v.orders

abbrev pub outcome : View → String → Option CommandOutcomeV6
outcome v k =
    Option.map (λ r. r.outcome) (get (λ (r : CommandReceiptV6). r.command_id) k v.receipts)

-- `may_predate`: the view may predate the command's admission.
abbrev pub may_predate : View → RunnerEntryV6 → Bool
may_predate v entry = leb v.revision entry.issued_broker_revision

-- The closure `absent`: what becomes of an entry a complete, newer view does not show.
unfoldable pub absent : View → RunnerEntryV6 → Option RunnerEntryV6 × List Note
absent v entry =
    if may_predate v entry || not v.complete
    then (some entry, [])
    else if not entry.vanished
    then (
      some (record entry { vanished = true; vanished_revision = v.revision; absent_views = 0 }),
      [],
    )
    else if leb v.revision entry.vanished_revision
    then (some entry, [])
    else if leb tombstone_expiry_views (entry.absent_views + 1)
    then (none, note "runner_tombstone_expired" entry.command_id ∷ [])
    else (some (record entry { absent_views = entry.absent_views + 1 }), [])

-- `changed`: the order differs from what the entry last reported.
abbrev pub changed : RunnerEntryV6 → BrokerOrderV6 → OrderUpdateStatusV6 → Bool
changed entry order status =
    entry.vanished
    || not (is_some_and entry.last_status (λ last. update_status_eq last status))
    || not (entry.filled_quantity_hundredths == order.filled_quantity_hundredths)

-- The entry after a report of the order.
abbrev pub caught_up : RunnerEntryV6 → BrokerOrderV6 → OrderUpdateStatusV6 → RunnerEntryV6
caught_up entry order status = record entry {
  order_id = some order.order_id;
  last_status = some status;
  filled_quantity_hundredths =
      max order.filled_quantity_hundredths entry.filled_quantity_hundredths;
  order_revision = order.revision;
  vanished = false;
  vanished_revision = 0;
  absent_views = 0;
}

-- A place whose order the view shows.
unfoldable pub compare_order : RunnerEntryV6 → BrokerOrderV6 → Compared
compare_order entry order =
    if ltb order.revision entry.order_revision
    then record { next = some entry; update = none; notes = [] }
    else let status = seen_status order entry.last_status in
      let is_final = is_terminal_update status in
      record {
        next = if not is_final then some (caught_up entry order status) else none;
        update =
            if changed entry order status
            then some (order_record entry order status is_final)
            else none;
        notes = [];
      }

-- A place whose order the view does not show, and that no receipt refuses.
unfoldable pub compare_missing : View → RunnerEntryV6 → Compared
unfolding absent
compare_missing v entry =
    let first_vanish = not entry.vanished && not (may_predate v entry) && v.complete in
    let status = map_or entry.last_status OrderUpdateStatusV6.accepted (λ s. s) in
    let (next, notes) = absent v entry in
    record {
      next = next;
      update = if first_vanish then some (command_record entry status none true) else none;
      notes = notes;
    }

abbrev pub refused : RunnerEntryV6 → Option BrokerOrderV6 → String → String → Compared
refused entry target code reason = record {
  next = none;
  update = some (command_record entry (OrderUpdateStatusV6.refused code reason) target false);
  notes = [];
}

unfoldable pub compare_place : View → RunnerEntryV6 → Compared
unfolding compare_order compare_missing
compare_place v entry = elim (by_command v entry.command_id) [
  | some order ↦ compare_order entry order
  | none ↦ elim (outcome v entry.command_id) [
    | some (CommandOutcomeV6.refused code reason) ↦ refused entry none code reason
    | some CommandOutcomeV6.accepted ↦ compare_missing v entry
    | none ↦ compare_missing v entry
  ]
]

-- The order a cancel names, by its order id, else by its client order id.
abbrev pub target : View → RunnerEntryV6 → Option BrokerOrderV6
target v entry =
    or_else (and_then entry.order_id (by_order_id v)) (and_then entry.client_order_id (by_client v))

abbrev is_cancel_order : BrokerCommandKindV6 → Bool
is_cancel_order BrokerCommandKindV6.cancel_order = true
is_cancel_order _ = false

abbrev settled : Compared
settled = record { next = none; update = none; notes = [] }

unfoldable pub compare_cancel : View → RunnerEntryV6 → Compared
unfolding absent
compare_cancel v entry = elim (outcome v entry.command_id) [
  | some CommandOutcomeV6.accepted ↦ settled
  | some (CommandOutcomeV6.refused code reason) ↦ refused entry (target v entry) code reason
  | none ↦
      if is_cancel_order entry.kind && is_some_and (target v entry) (λ o. is_terminal o.status)
      then settled
      else let (next, notes) = absent v entry in
        record { next = next; update = none; notes = notes }
]

unfoldable pub compare : View → RunnerEntryV6 → Compared
unfolding compare_place compare_cancel
compare v entry = if is_place entry.kind then compare_place v entry else compare_cancel v entry
