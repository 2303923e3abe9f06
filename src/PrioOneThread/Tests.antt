-- ===== src/PrioOneThread/Tests.antt =====
-- Priorities: the theorem on neighbours at priority 3.
