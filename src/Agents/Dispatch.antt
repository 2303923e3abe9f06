-- ===== src/Agents/Dispatch.antt =====
-- so_5/rt/agent.cpp: how the handler of a demand is found, in any storage of subscriptions, and what
-- is done for a demand, by the handlers of demands and by execution hints.
use android_vendor_sobjectiz.Common.{ℕ, zero, suc, Option, none, some}
use android_vendor_sobjectiz.Agents.States.{Table, parent_of}
use android_vendor_sobjectiz.Subscriptions.Storage.{StorageOps}
pub mod Nearest

-- The pointer to the handler, or null; `goes_on` is that the fuel ran out.
pub data Search : Type 0 where
  found : ℕ → Search
  not_found goes_on : Search

-- The do-while loop of find_event_handler_for_current_state.
unfoldable pub find_event_handler : {S : Type 0} → StorageOps S → ℕ → Table → S → ℕ → ℕ → ℕ → Search
find_event_handler ops zero t store mbox msg_type s = goes_on
find_event_handler ops (suc fuel) t store mbox msg_type s =
    elim (ops.find_handler mbox msg_type s store) [
      | some h ↦ found h
      | none ↦ elim (parent_of t s) [
        | none ↦ not_found
        | some p ↦ find_event_handler ops fuel t store mbox msg_type p
      ]
    ]
