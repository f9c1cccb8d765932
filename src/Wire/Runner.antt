-- ===== src/Wire/Runner.antt =====
-- The validator of the runner section (`validate_runner_section` in
-- native/strategy_core_v3/src/decision_v6.rs).
use strategy_core.Common.{
  Bool, true, false, not, ◌&&◌, ◌||◌, String, none, some, List, [], ◌∷◌, map, length, count_if, any,
  leb, ltb, ◌==◌, is_some, is_none, is_none_or, if◌then◌else◌, ok, err, ◌>>◌, fail_if,
}
use strategy_core.Wire.Bounds.{
  max_runner_section_entries, max_tombstones, max_delivery_attempts, max_delivery_deferrals,
  tombstone_expiry_views, i64_max,
}
use strategy_core.Wire.Orders.{
  BrokerCommandKindV6, RunnerEntryV6, RunnerSectionV6, is_terminal_update, is_place,
}
use strategy_core.Wire.Text.{
  invalid_contract, bound_exceeded, Checked, valid_identifier, valid_optional_identifier, unique,
}

-- The counters of an entry that no section may hold.
unfoldable pub bad_counters : RunnerEntryV6 → Bool
bad_counters entry =
    leb max_delivery_attempts entry.delivery_failures
    || leb max_delivery_deferrals entry.delivery_deferrals
    || (not entry.vanished && (not (entry.vanished_revision == 0) || not (entry.absent_views == 0)))
    || leb tombstone_expiry_views entry.absent_views

unfoldable pub order_fields_valid : RunnerEntryV6 → Bool
order_fields_valid entry =
    valid_optional_identifier entry.client_order_id
    && valid_optional_identifier entry.order_id
    && valid_optional_identifier entry.market_id
    && leb entry.filled_quantity_hundredths entry.requested_quantity_hundredths
    && leb entry.requested_quantity_hundredths i64_max

unfoldable pub shape_of : BrokerCommandKindV6 → RunnerEntryV6 → Bool
shape_of BrokerCommandKindV6.place_order entry =
    is_some entry.client_order_id
    && is_some entry.market_id
    && is_some entry.action
    && is_some entry.side
    && ltb 0 entry.requested_quantity_hundredths
    && is_none_or entry.last_status (λ status. not (is_terminal_update status))
shape_of BrokerCommandKindV6.cancel_order entry = is_none entry.last_status
shape_of BrokerCommandKindV6.cancel_all_orders entry =
    is_none entry.last_status
    && is_none entry.client_order_id
    && is_none entry.order_id
    && is_none entry.market_id
    && is_none entry.action
    && is_none entry.side
    && entry.requested_quantity_hundredths == 0
    && entry.filled_quantity_hundredths == 0

unfoldable pub shape : RunnerEntryV6 → Bool
unfolding shape_of
shape entry = shape_of entry.kind entry

unfoldable pub check_entries : List RunnerEntryV6 → Checked
check_entries [] = ok tt
check_entries (entry ∷ entries) =
    elim (valid_identifier entry.command_id && order_fields_valid entry && shape entry) [
      | true ↦ check_entries entries
      | false ↦ err invalid_contract
    ]

-- The client order ids of the places.
unfoldable pub place_client_ids : List RunnerEntryV6 → List String
place_client_ids [] = []
place_client_ids (entry ∷ entries) = elim entry.client_order_id [
  | none ↦ place_client_ids entries
  | some client ↦
      let rest = place_client_ids entries in if is_place entry.kind then client ∷ rest else rest
]

unfoldable pub validate_runner_section : RunnerSectionV6 → Checked
unfolding check_entries place_client_ids
validate_runner_section runner = do
  fail_if
      (ltb max_runner_section_entries (length runner.entries)
        || ltb max_tombstones (count_if (λ entry. entry.vanished) runner.entries))
      bound_exceeded
  fail_if (any bad_counters runner.entries) invalid_contract
  unique (map (λ entry. entry.command_id) runner.entries)
  unique (place_client_ids runner.entries)
  check_entries runner.entries
