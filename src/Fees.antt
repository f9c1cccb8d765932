-- ===== src/Fees.antt =====
-- Exact execution fees and order-wide rounding credits
-- (native/strategy_core_kernel/src/fees.rs).
pub mod Schedule
pub mod Trade
pub mod Rounding
pub mod Fill
pub mod Reserve
pub mod Divide
pub mod Exact
pub mod Made
pub mod Posting
pub mod Charge
