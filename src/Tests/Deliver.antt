-- ===== src/Tests/Deliver.antt =====
-- The delivery of a sample order update to a kernel that places an order.
use strategy_core.Common.{
  ℕ, ◌+◌, ◌≡◌, ◌≤◌, refl, sym, max, false, none, some, [], ◌∷◌, length, All, ok, err, if◌then◌else◌,
  ◌==◌, String, Result,
}
use strategy_core.Wire.Text.{valid_identifier, valid_provider_client_id}
use strategy_core.Wire.Commands.{command_id}
use strategy_core.Updates.Compare.{compare}
use strategy_core.Updates.Delivery.{targets}
use strategy_core.Host.Orders.{place}
use strategy_core.Host.Admission.{next_ordinal, issue_broker_command}
use strategy_core.Actions.{resting_limit}
use strategy_core.Plan.Terms.{place_order_terms_error}
use strategy_core.Fees.Reserve.{buy_commitment_micros}
use strategy_core.Wire.Request.{validate_command}
use strategy_core.Plan.Rows.{max_open_orders, open_orders, total, add, new_rows}
use strategy_core.Updates.Records.{Failure, Step, order_record}
use strategy_core.Host.State.{KernelHost, fee_terms}
use strategy_core.Host.Calls.{Call, call, after}
use strategy_core.Host.Deliver.{Kernel, Texts, Delivery, deliver, deliver_update}
use strategy_core.Host.Sound.{Numbered}
use strategy_core.Host.Called.{Called}
use strategy_core.Host.Delivered.{validate_command-deliver}
use strategy_core.Host.Undone.{SameDecision, deliver_update-undone}
use strategy_core.Wire.Orders.{OrderUpdateRecordV6, OrderUpdateStatusV6}
use strategy_core.Tests.Samples.{place_entry, view_60}
use strategy_core.Updates.Derive.{step_of}
use strategy_core.Tests.Host.{sample_len, start_host}
use strategy_core.Tests.Calls.{sample_price, sample_request, start-Begun}

-- It counts the updates it is told of and fails at the first.
abbrev sample_kernel : Kernel
sample_kernel = record {
  State = ℕ;
  Snapshot = ℕ;
  initial = ok 1;
  encode = λ n. ok n;
  decode = λ n. ok n;
  on_update = λ update n h. (
    if n == 0 then err "not now" else ok tt,
    n + 1,
    after (call sample_len sample_price h (Call.place_order sample_request)),
  );
}

abbrev sample_texts : Texts
sample_texts = record {
  message = λ error. "";
  held = λ update s. "held";
  unsaved = λ update s error. error;
  failed = λ update s failure error. error;
  unrestored = λ update s error restore_error. error;
  out_of_order = λ update s. "out of order";
}

abbrev sample_step : Step
sample_step = step_of view_60 place_entry

sample-Acts :
    (update : OrderUpdateRecordV6) (n : ℕ) (h : KernelHost)
    → Called sample_len sample_price start_host h
    → Called sample_len sample_price start_host (sample_kernel.on_update update n h).2
sample-Acts update n h reached = Called.called h (Call.place_order sample_request) reached

-- A delivery to a kernel of so many updates.
abbrev begun_with : ℕ → Delivery sample_kernel
begun_with n = record {
  kernel = n;
  host = start_host;
  failed = [];
  start = none;
  unit_start = none;
  left = false;
}

abbrev told : OrderUpdateRecordV6
told = elim sample_step.update [
  | none ↦ record {
    command_id = "p1";
    kind = place_entry.kind;
    client_order_id = none;
    order_id = none;
    market_id = none;
    action = none;
    side = none;
    status = OrderUpdateStatusV6.accepted;
    requested_quantity_hundredths = 0;
    filled_quantity_hundredths = 0;
    remaining_quantity_hundredths = 0;
    newly_filled_quantity_hundredths = 0;
    average_fill_price_micros = none;
    fees_micros = 0;
    is_final = false;
    vanished = false;
  }
  | some update ↦ update
]

abbrev reached : Result String (Delivery sample_kernel) → Delivery sample_kernel
reached (ok d) = d
reached (err message) = begun_with 0

-- The first is told once more, and the second places an order.
abbrev delivery : Delivery sample_kernel
delivery =
    reached (deliver sample_kernel sample_texts (sample_step ∷ []) 1 start_host ((0 ∷ []) ∷ []))

abbrev failed_delivery : Delivery sample_kernel
failed_delivery =
    reached (
      deliver_update sample_kernel sample_texts (sample_step ∷ []) (begun_with 0) 0 sample_step
        told)

told_and_placed : (length delivery.host.commands ≡ 1) × (delivery.kernel ≡ 2)
unfolding deliver call compare targets place next_ordinal resting_limit place_order_terms_error
    fee_terms buy_commitment_micros valid_provider_client_id valid_identifier validate_command
    command_id issue_broker_command total add new_rows
told_and_placed = (refl, refl)

validate_command-deliver_example :
    All (λ c. validate_command c ≡ ok tt) delivery.host.commands
    × Numbered start_host.context.ids 0 delivery.host.commands
    × (length delivery.host.provisional + open_orders start_host.broker
        ≤ max (open_orders start_host.broker) (max_open_orders start_host.context.deployment_mode))
unfolding deliver call compare targets
validate_command-deliver_example =
    validate_command-deliver sample_len sample_price start_host sample_kernel sample_texts
      (sample_step ∷ []) sample-Acts 1 ((0 ∷ []) ∷ []) delivery start-Begun refl

deliver_update-undone_example :
    (failed_delivery.kernel ≡ 0) × SameDecision start_host failed_delivery.host
unfolding deliver_update call compare targets order_record place next_ordinal resting_limit
    place_order_terms_error fee_terms buy_commitment_micros valid_provider_client_id
    valid_identifier validate_command command_id issue_broker_command total add new_rows
deliver_update-undone_example =
    deliver_update-undone sample_kernel sample_texts (sample_step ∷ [])
      (λ n snapshot same. sym same) (begun_with 0) failed_delivery 0 sample_step told
      Failure.counted refl refl refl refl
