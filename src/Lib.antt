-- ===== src/Lib.antt =====
-- SObjectizer (dev/so_5), an actor framework: what its queues of demands promise to the threads that
-- use them, and how agents and cooperations live, change their states and get their demands. Paths in this library are from the repository's root, with dev/ left out before so_5/.
--
-- Common: Boolean tests on numbers, list operations over the native numbers, error codes
-- (so_5/h/ret_code.hpp) and the result of code that may throw.
--
-- Mchain: message chains. A chain is a queue of demands that senders and receivers on different
-- threads share.
--   Mchain/Demand: the types of so_5/rt/h/mchain.hpp.
--   Mchain/Queue: the interface QueueOps that mchain_template asks of its queue, and its laws
--     QueueLaws. Queue/Unlimited, Queue/LimitedDynamic and Queue/Preallocated are the three queues
--     of so_5/rt/impl/h/mchain_details.hpp, Queue/Refinement compares them with a bounded list.
--   Mchain/Chain: mchain_template of the same file: try_to_store_message_to_queue is `store` and
--     `store_resume`, extract is `extract` and `extract_resume`, further close, extract for a
--     select case, remove_from_select. An operation is cut in two at its wait on a condition
--     variable, where the lock is free. Chain/World puts threads around a chain: a list of actions
--     is an interleaving of the locked parts of the operations.
--
-- PrioOneThread: the dispatchers with one thread and prioritized agents.
--   PrioOneThread/Priorities: so_5/h/priority.hpp.
--   PrioOneThread/StrictlyOrdered: demand_queue_t of
--     so_5/disp/prio_one_thread/strictly_ordered/impl/h/demand_queue.hpp.
--   PrioOneThread/QuotedRoundRobin: demand_queue_t of
--     so_5/disp/prio_one_thread/quoted_round_robin/impl/h/demand_queue.hpp and quotes_t.
--
-- Subscriptions: where an agent keeps its subscriptions, a handler for each mbox, type and state.
--   Subscriptions/Data and Subscriptions/Storage: so_5/rt/impl/h/subscription_storage_iface.hpp, with
--     the promises of a storage as laws over its contents up to order (Subscriptions/Content).
--   Subscriptions/VectorBased, Subscriptions/MapBased and Subscriptions/Adaptive:
--     subscr_storage_vector_based.cpp, subscr_storage_map_based.cpp and subscr_storage_adaptive.cpp
--     of so_5/rt/impl, the first two with their destructors. An mbox is its id; the destructor of the
--     storage over a vector takes each subscription with the address of the mbox object that it holds.
--   Subscriptions/Equivalence compares two storages, Subscriptions/Mboxes listens to their calls.
--
-- Agents: the states of agents and what is done for a demand, of so_5/rt/agent.cpp.
--   Agents/States: the constructors of state_t, actual_state_to_enter, the history and fill_path, with
--     state_t of so_5/rt/h/state.hpp; states are numbered in the order in which they are made.
--     States/Shape says what the tree of states is, States/Building runs programs that build one, and
--     States/Building/Counting follows their counts of substates.
--   Agents/Switch: so_change_state and do_state_switch with their calls of handlers in order;
--     Switch/Changes and Switch/Returns hold the theorems.
--   Agents/Dispatch: find_event_handler_for_current_state over any storage of Subscriptions.
--   Agents/Demands: the handlers of demands, so_create_execution_hint and execution_hint_t of
--     so_5/rt/h/execution_demand.hpp.
--
-- Coops: the registry of cooperations, agent_core_t of so_5/rt/impl/agent_core.cpp with the usage
--   counts of coop_t in so_5/rt/agent_coop.cpp. Names are numbers in the order of the strings.
--   Coops/Data: what agent_core_t and coop_t hold. Coops/Operations: register_coop, the first and the
--     second stage of deregister_coop, deregister_all_coop and final_deregister_coop.
--     Coops/Invariant says what a sound registry is; Coops/Registration, Joining, Collecting,
--     Deregistration, Shutting and Finishing go through the operations.
--   Coops/World: threads, agents and the final deregistration around a registry; a list of actions is
--     an interleaving of the parts under the lock and of the changes of one counter. World/Steps,
--     World/Safety and World/Shutdown follow it.
--
-- ThreadPool: the queue of a thread pool dispatcher, so_5/disp/reuse/h/mpmc_ptr_queue.hpp, and the
--   queues of agents of so_5/disp/thread_pool/impl/h/disp.hpp. ThreadPool/Workers puts the working
--   threads and those that push around them, Workers/Runs holds the theorem on their interleavings.
--
-- Mboxes: mboxes and the delivery through them.
--   Mboxes/Subscriber, Mboxes/Container and Mboxes/Local: subscriber_info_t,
--     subscriber_adaptive_container_t and the table of local_mbox_template, of
--     so_5/rt/impl/h/local_mbox.hpp. Container/Order and Container/Laws say what the two storages of a
--     container have in common, with Container/Changes and Container/Insertion; Local/Interests says what
--     the calls of a mbox ask for, Local/Entries, Local/Tables and
--     Local/Refinement compare the table with it, Local/Filters replaces a filter.
--   Mboxes/Limits: info_storage_t of so_5/rt/impl/h/message_limit_internals.hpp, with Limits/Sorting,
--     Limits/Searches and Limits/Creation.
--   Mboxes/Single: the subscriptions of the mboxes of so_5/rt/impl/h/mpsc_mbox.hpp, with
--     Single/Subscribed.
--   Mboxes/Delivery: do_deliver_message and do_deliver_service_request of the same file and of
--     so_5/rt/impl/h/mpsc_mbox.hpp, try_to_deliver_to_agent of
--     so_5/rt/impl/h/message_limit_internals.hpp, the reactions of so_5/rt/message_limit.cpp, and
--     push_event of so_5/rt/agent.cpp. Delivery/Accounts, Delivery/Attempts and
--     Delivery/Rounds count demands,
--     Delivery/Reaching looks for those who get a message, Delivery/Faults follows two failures, and
--     Delivery/Counters lets threads race for one counter.
--
-- Bounds and fuel. Counters of the C++ code are numbers without an upper bound, since they count
-- objects in memory; their decrement at 0 is written out by `dec_size`. The drop loop of `close` runs
-- on the queue's size, which each round lowers. The search of the quoted queue runs on 8 rounds, a
-- whole turn over the priorities; running out is the outcome `spins`. actual_state_to_enter runs on 16
-- rounds, the depth that states may have, and ends in the outcome `loops` when they run out; loops
-- over the parents of a state run on its level, and the search for a handler on one round more.
-- A delivery runs on one round for each reaction, of which at most 32 stand one within another. The
-- counters of message limits are of 32 bits, with `inc` and `dec` written out.
-- The binary search for a limit runs on one round more than there are blocks.
-- collect_coops runs on as many rounds as there are registered coops.
--
-- Not modelled: time (a thread may give up a wait at any moment), message tracing but for the calls
-- that say what came in and went out, the delivery of service requests through chains, statistics,
-- and the destruction of queues; for agents their time limits, the move constructor of states, the
-- exceptions that handlers throw, and the locks; for mboxes a failed allocation, the names of mboxes and how an agent keeps its filters;
-- for coops what defining and binding agents does, exceptions that are no std::exception, notificators
-- and waiting.
pub mod Common
pub mod Mchain
pub mod PrioOneThread
pub mod Subscriptions
pub mod Agents
pub mod Coops
pub mod ThreadPool
pub mod Mboxes
