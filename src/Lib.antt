-- ===== src/Lib.antt =====
-- A model of strategy-core, the library that trading strategies and their host share, with the
-- theorems that make its parts correct.
--
-- The host calls a Strategy's kernel once per decision. Each decision compares the runner section
-- (the runner's record of the Strategy's orders and commands) with the Broker's view, delivers the
-- order updates that result to the kernel, lets it issue commands, and leaves a new runner section
-- and the acknowledgements. The fees that the Broker charges and reserves, the terms of an order
-- and the plan rows that a decision's commands need are computed by functions both sides call.
--
-- The files:
-- - Wire: the data of native/strategy_core_v3/src/decision_v6.rs and its validators. Wire/Bounds
--   has the bounds, Wire/Orders and Wire/Commands the enums and structs, Wire/Text the text checks
--   and `unique`, Wire/Runner `validate_runner_section`, Wire/Broker `validate_broker_order_v6`,
--   Wire/Results the result with its telemetry, Wire/Detail `validate_broker` and `validate_receipts`, Wire/Request `validate_command`, Wire/Paths
--   `valid_http_path`; Wire/Contained holds a proof.
-- - Updates: native/strategy_core_v3/src/kernel_v6/updates.rs. Updates/Records has the update
--   records, Updates/Compare the comparison of one entry (the loop body of `derive_from_section`),
--   Updates/Derive the whole section with the adoption of untracked orders, Updates/Delivery
--   `delivery_order` and `targets`, Updates/Finalize `finalize`, Updates/Acknowledge the
--   acknowledgements. The other files of Updates hold the proofs.
-- - Fees: native/strategy_core_kernel/src/fees.rs. Fees/Schedule has the rates and a Market's
--   terms, Fees/Trade `trade_fee_micros`, Fees/Rounding `apply_fee_rounding_micros`, Fees/Fill the
--   charge of a fill, Fees/Reserve the reservation and commitment of a buy; Fees/Divide, Fees/Exact,
--   Fees/Made, Fees/Posting and Fees/Charge hold the proofs.
-- - Plan: the order terms (Plan/Terms) and the account plan rows (Plan/Rows, Plan/Budget) of
--   decision_v6.rs.
-- - Host: the kernel transaction host (native/strategy_core_v3/src/kernel_v6.rs). Host/State has its
--   state, `save` and `restore`, Host/Admission `issue_broker_command` and what it calls, Host/Orders
--   `place`, Host/Cancels `cancel` and `cancel_all`, Host/Calls the external requests, the timers, the
--   stop and the calls a kernel may make, Host/Views `order_status` and `pending_orders`, Host/Deliver
--   the loop of `run_transaction` that delivers the updates, Host/Append `append_outputs` and Host/Fit
--   `fit_result`. Proofs: Host/Admits and Host/Reachable of
--   the admission, Host/Refusals of what is refused, Host/Effects, Host/Outcomes, Host/Sound,
--   Host/Called and Host/Kept of the calls one after another, Host/Shown and Host/Pending of the views, Host/Delivered
--   and Host/Undone of the delivery, Host/Fates, Host/Fated, Host/Appends and Host/Appended of the
--   outputs (Host/Fates says what becomes of each), Host/Removed,
--   Host/Shed, Host/Turns and Host/Fitted of the fitting.
-- - Actions: the requests of native/strategy_core_kernel/src/actions.rs with their builders, and
--   Actions/Views the order views. Quantity: its `ContractQuantity`.
-- - Decimal: native/strategy_core_kernel/src/decimal.rs, with the printer in Decimal/Print and proofs
--   in Decimal/Exact, Decimal/Digits and Decimal/RoundTrip.
-- - Common: lists, options, results and signed integers over the native numbers. Tests: samples and
--   runs at concrete input.
--
-- How the code is modelled: structs are records and enums data types with the source's
-- constructors; unsigned integers are natural numbers, and checked or wrapping operations write out
-- their width (`2 ^ 64`, `2 ^ 128`); signed ones are integers with the same tests. A map collected
-- from a list keeps the last item of a key, as `BTreeMap` does; a set is a list. A result that may
-- be an error is a `Result`, an index that may be missing an `Option`, and where the source would
-- panic on a broken assumption (`expect`) the model returns `none`, or, in the eviction loop,
-- leaves the entries, which the theorems show does not happen.
--
-- Parameters: the encoded length of records (`EncodedLen`, `OutputCodec`), the
-- encoder of a result (`ResultCodec`), the derived ids (`Ids`), the conversion
-- of a binary price to microdollars, the clock's conversions (`Clock`), and the Strategy's kernel with
-- its codec and factory (`Kernel`), whose calls on the host are the modelled ones.
--
-- Fuel: the eviction loop of `finalize` runs with as much fuel as there are tombstones, one of
-- which each turn removes; the reduction of a fee rate runs with the rate, which bounds the
-- remainders; the fitting of a result runs with its telemetry and logs, one of which each turn
-- sheds; the digits of a number are computed with more fuel than the number.
--
-- Not modelled: the digests (SHA-256), the bincode codec, the calendar and the floating-point
-- market data, which are third-party code or pure data; of the kernel transaction host, the texts
-- of its records, the evidence and the diagnostics of the notes, the assembly of the result, the
-- projection of the context and the trigger's event; the validators of triggers,
-- scopes and results; the V4 and V3 contracts and the observation codecs, which the modelled parts do
-- not use.
pub mod Actions
pub mod Common
pub mod Wire
pub mod Updates
pub mod Decimal
pub mod Fees
pub mod Plan
pub mod Host
pub mod Quantity
pub mod Tests
