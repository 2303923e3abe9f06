-- ===== src/Coops.antt =====
-- The registry of cooperations.
pub mod Data
pub mod Operations
pub mod Counts
pub mod Invariant
pub mod Registration
pub mod Unchanged
pub mod Joining
pub mod Collecting
pub mod Deregistration
pub mod Shutting
pub mod Finishing
pub mod World
