-- ===== src/Wire/Bounds.antt =====
-- The bounds of the Decision V6 wire (native/strategy_core_v3/src/decision_v6.rs).
use strategy_core.Common.{ℕ, ◌+◌, ◌-◌, ◌*◌, ◌^◌}

abbrev pub max_decision_result_v6_bytes : ℕ
max_decision_result_v6_bytes = 1024 * 1024

abbrev pub result_encoded_budget_bytes : ℕ
result_encoded_budget_bytes = max_decision_result_v6_bytes - 128 * 1024

abbrev pub max_broker_orders : ℕ
max_broker_orders = 256

abbrev pub max_command_receipts : ℕ
max_command_receipts = 256

abbrev pub max_strategy_commands : ℕ
max_strategy_commands = 64

abbrev pub max_acknowledged_commands : ℕ
max_acknowledged_commands = max_command_receipts + max_broker_orders + 1

abbrev pub max_runner_entries : ℕ
max_runner_entries = 256

abbrev pub max_tombstones : ℕ
max_tombstones = 32

abbrev pub max_runner_section_entries : ℕ
max_runner_section_entries = max_runner_entries + max_tombstones

abbrev pub tombstone_expiry_views : ℕ
tombstone_expiry_views = 16

abbrev pub max_delivery_attempts : ℕ
max_delivery_attempts = 3

abbrev pub max_delivery_deferrals : ℕ
max_delivery_deferrals = 8

abbrev pub max_price_micros : ℕ
max_price_micros = 1_000_000

abbrev pub max_open_orders_paper : ℕ
max_open_orders_paper = 192

abbrev pub max_identifier_bytes : ℕ
max_identifier_bytes = 160

abbrev pub max_provider_client_id_bytes : ℕ
max_provider_client_id_bytes = 128

abbrev pub max_short_text_bytes : ℕ
max_short_text_bytes = 512

abbrev pub max_reason_bytes : ℕ
max_reason_bytes = 4 * 1024

abbrev pub max_command_metadata_bytes : ℕ
max_command_metadata_bytes = 64 * 1024

abbrev pub max_timer_semantics_bytes_v6 : ℕ
max_timer_semantics_bytes_v6 = 16 * 1024

-- `i64::MAX as u64`
abbrev pub i64_max : ℕ
i64_max = 2 ^ 63 - 1

abbrev pub max_decision_plan_rows : ℕ
max_decision_plan_rows = 512

abbrev pub place_order_plan_rows : ℕ
place_order_plan_rows = 5

abbrev pub cancel_order_plan_rows : ℕ
cancel_order_plan_rows = 3

abbrev pub cancel_all_orders_plan_rows : ℕ
cancel_all_orders_plan_rows = 3

abbrev pub collapsed_place_plan_rows : ℕ
collapsed_place_plan_rows = 1

abbrev pub refused_command_plan_rows : ℕ
refused_command_plan_rows = 1

abbrev pub decision_plan_rows : ℕ
decision_plan_rows = 4

abbrev pub acknowledgement_plan_rows : ℕ
acknowledgement_plan_rows = 1

abbrev pub max_broker_positions : ℕ
max_broker_positions = 256

abbrev pub max_external_request_bytes : ℕ
max_external_request_bytes = 64 * 1024

abbrev pub max_external_request_timeout_ms : ℕ
max_external_request_timeout_ms = 120_000

abbrev pub max_http_path_bytes : ℕ
max_http_path_bytes = 2 * 1024

abbrev pub max_command_request_args : ℕ
max_command_request_args = 64

abbrev pub max_outstanding_external_requests : ℕ
max_outstanding_external_requests = 8
