-- ===== src/Agents/Demands.antt =====
-- so_5/rt/agent.cpp and so_5/rt/h/execution_demand.hpp: what is done for a demand, by its handler and
-- by an execution hint. The null thread is 0. The bodies of handlers are code of users: a call of one
-- is recorded with the working thread that the agent has then.
use android_vendor_sobjectiz.Common.{
  ℕ, suc, ◌+◌, ◌==◌, if◌then◌else◌, Bool, true, false, Option, none, some, List, [], ◌∷◌, ◌++◌,
}
use android_vendor_sobjectiz.Agents.States.{Table, level_of}
use android_vendor_sobjectiz.Agents.Switch.{Agent, Change, return_to_default_state_if_possible}
use android_vendor_sobjectiz.Agents.Dispatch.{Search, found, not_found, goes_on, find_event_handler}
use android_vendor_sobjectiz.Subscriptions.Storage.{StorageOps}
pub mod Hints

pub data DemandHandler : Type 0 where
  demand_handler_on_start demand_handler_on_finish demand_handler_on_message
        service_request_handler_on_message :
      DemandHandler

pub record Demand : Type 0 where
  pub limit : Option ℕ
  pub mbox_id : ℕ
  pub msg_type : ℕ
  pub demand_handler : DemandHandler

pub data Effect : Type 0 where
  limit_decremented : ℕ → Effect
  evt_start evt_finish : ℕ → Effect
  returned_to_default : Change → Effect
  usage_count_decremented : Effect
  event service_request : ℕ → ℕ → Effect
  svc_not_handled : Effect

-- What a hint calls.
pub data Direct : Type 0 where
  process_message_with : ℕ → Direct
  process_service_request_with : Option ℕ → Direct
  call_demand_handler : Direct

pub record Hint : Type 0 where
  pub direct_func : Option Direct
  pub is_thread_safe : Bool

abbrev pub decrement : Option ℕ → List Effect
decrement none = []
decrement (some l) = limit_decremented l ∷ []

-- The working thread of the agent while a working_thread_id_sentinel_t lives.
abbrev pub sentinel : ℕ → Agent → ℕ
sentinel thread a = if thread == 0 then a.working_thread_id else thread

abbrev pub process_message : ℕ → Agent → ℕ → List Effect
process_message thread a h = event h (sentinel thread a) ∷ []

abbrev pub serve : ℕ → Agent → Option ℕ → List Effect
serve thread a none = svc_not_handled ∷ []
serve thread a (some h) = service_request h (sentinel thread a) ∷ []

-- The four handlers of demands, with the handler that a search would find. What a handler of a
-- service request throws goes into the promise.
pub handle : ℕ → Agent → Option ℕ → DemandHandler → Option ℕ → List Effect
handle thread a limit demand_handler_on_start h = evt_start (sentinel thread a) ∷ []
handle thread a limit demand_handler_on_finish h =
    evt_finish (sentinel thread a)
    ∷ returned_to_default
        (return_to_default_state_if_possible (record a { working_thread_id = sentinel thread a }))
    ∷ usage_count_decremented
    ∷ []
handle thread a limit demand_handler_on_message none = decrement limit
handle thread a limit demand_handler_on_message (some h) =
    decrement limit ++ process_message thread a h
handle thread a limit service_request_handler_on_message h = decrement limit ++ serve thread a h

pub create_hint : (ℕ → Bool) → DemandHandler → Option ℕ → Hint
create_hint thread_safe demand_handler_on_message none = record {
  direct_func = none;
  is_thread_safe = true;
}
create_hint thread_safe demand_handler_on_message (some h) = record {
  direct_func = some (process_message_with h);
  is_thread_safe = thread_safe h;
}
create_hint thread_safe service_request_handler_on_message none = record {
  direct_func = some (process_service_request_with none);
  is_thread_safe = true;
}
create_hint thread_safe service_request_handler_on_message (some h) = record {
  direct_func = some (process_service_request_with (some h));
  is_thread_safe = thread_safe h;
}
create_hint thread_safe _ _ = record {
  direct_func = some call_demand_handler;
  is_thread_safe = false;
}

module _ {S : Type 0} (ops : StorageOps S) (store : S) (a : Agent) where
  -- What the handler finder of the agent finds.
  abbrev pub handler_of : Demand → Option ℕ
  handler_of d =
      elim (find_event_handler ops (suc (level_of a.states a.current_state)) a.states store
        d.mbox_id d.msg_type a.current_state) [
          | found h ↦ some h
          | not_found ↦ none
          | goes_on ↦ none
        ]

  -- The handler of the demand, on a thread.
  pub call_handler : ℕ → Demand → List Effect
  unfolding handle
  call_handler thread d = handle thread a d.limit d.demand_handler (handler_of d)

  pub so_create_execution_hint : (ℕ → Bool) → Demand → Hint
  unfolding create_hint
  so_create_execution_hint thread_safe d = create_hint thread_safe d.demand_handler (handler_of d)

  -- The function of a hint, called with its demand.
  pub run : ℕ → Demand → Option Direct → List Effect
  unfolding call_handler
  run thread d none = []
  run thread d (some (process_message_with h)) = process_message thread a h
  run thread d (some (process_service_request_with h)) = serve thread a h
  run thread d (some call_demand_handler) = call_handler thread d

  pub exec : ℕ → Demand → Hint → List Effect
  unfolding run
  exec thread d h =
      decrement d.limit ++ run (if h.is_thread_safe then 0 else thread) d h.direct_func
