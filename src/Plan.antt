-- ===== src/Plan.antt =====
-- The order terms of a place and the account plan rows of a decision
-- (native/strategy_core_v3/src/decision_v6.rs).
pub mod Terms
pub mod Rows
pub mod Budget
