-- ===== src/Tests.antt =====
-- Concrete data, the theorems applied to it, and runs of the definitions on single inputs.
pub mod Data
mod Checks
mod Dispatches
mod Policies
mod Learning
mod Values
mod Parsed
mod Validated
mod Reloaded
mod Watched
mod Jobs
mod Alerted
mod Buses
mod Revalidated
