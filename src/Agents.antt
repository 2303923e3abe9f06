-- ===== src/Agents.antt =====
-- so_5/rt/h/state.hpp and so_5/rt/agent.cpp: the states of agents, the switch between them, and the
-- search for the handler of a message.
pub mod States
pub mod Switch
pub mod Dispatch
pub mod Demands
mod Examples
