-- ===== src/Mboxes.antt =====
-- The mboxes, so_5/rt/impl/h/local_mbox.hpp, and what they hold for a subscriber.
pub mod Subscriber
pub mod Container
pub mod Local
pub mod Limits
pub mod Single
pub mod Delivery
mod Examples
