-- ===== src/Tests.antt =====
-- Tests of the definitions on concrete input, and the theorems at it.
mod Samples
mod Updates
mod Fees
mod Plan
mod Host
mod Quantity
mod Calls
mod Deliver
mod Fit
mod Decimal
