-- ===== src/Host.antt =====
-- The kernel transaction host (native/strategy_core_v3/src/kernel_v6.rs).
pub mod State
pub mod Admission
pub mod Orders
pub mod Cancels
pub mod Calls
pub mod Views
pub mod Deliver
pub mod Append
pub mod Fates
pub mod Fated
pub mod Appends
pub mod Appended
pub mod Fit
pub mod Removed
pub mod Shed
pub mod Turns
pub mod Fitted
pub mod Effects
pub mod Refusals
pub mod Outcomes
pub mod Sound
pub mod Called
pub mod Kept
pub mod Pending
pub mod Shown
pub mod Delivered
pub mod Undone
pub mod Admits
pub mod Reachable
