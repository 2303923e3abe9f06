-- ===== src/PrioOneThread.antt =====
-- The dispatchers with one thread and demand priorities: so_5/disp/prio_one_thread.
pub mod Priorities
pub mod StrictlyOrdered
pub mod QuotedRoundRobin
mod Tests
