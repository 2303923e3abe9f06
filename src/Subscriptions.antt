-- ===== src/Subscriptions.antt =====
-- so_5/rt/impl: the storages of an agent's subscriptions.
pub mod Data
pub mod Content
pub mod Lookup
pub mod Storage
pub mod VectorBased
pub mod MapBased
pub mod Adaptive
pub mod Equivalence
pub mod Mboxes
mod Examples
