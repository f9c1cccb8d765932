-- ===== src/Updates.antt =====
-- The comparison that turns the Broker's state into order updates
-- (native/strategy_core_v3/src/kernel_v6/updates.rs).
pub mod Records
pub mod Compare
pub mod Derive
pub mod Delivery
pub mod Finalize
pub mod Acknowledge
pub mod Reports
pub mod Fills
pub mod Validity
pub mod Evict
pub mod Section
pub mod Preserves
pub mod Indexes
pub mod Ordered
pub mod Acknowledged
pub mod Quiet
pub mod Lookup
pub mod Retry
pub mod Tracking
pub mod Validated
