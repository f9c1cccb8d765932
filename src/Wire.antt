-- ===== src/Wire.antt =====
-- The Decision V6 wire (native/strategy_core_v3/src/decision_v6.rs): the data a decision sees and
-- returns, its bounds and its validators.
pub mod Bounds
pub mod Orders
pub mod Commands
pub mod Text
pub mod Runner
pub mod Broker
pub mod Paths
pub mod Contained
pub mod Request
pub mod Detail
pub mod Results
