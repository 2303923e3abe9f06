-- ===== src/Mchain.antt =====
-- Message chains: so_5/rt/h/mchain.hpp and so_5/rt/impl/h/mchain_details.hpp.
pub mod Demand
pub mod Queue
pub mod Chain
