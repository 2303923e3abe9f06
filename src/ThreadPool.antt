-- ===== src/ThreadPool.antt =====
-- The thread pool dispatcher: mpmc_ptr_queue_t of so_5/disp/reuse/h/mpmc_ptr_queue.hpp, and
-- agent_queue_t and work_thread_t of so_5/disp/thread_pool/impl/h/disp.hpp. Queues of agents, threads
-- and demands are numbers.
use android_vendor_sobjectiz.Common.{
  ℕ, zero, suc, ◌+◌, ◌==◌, ltb, if◌then◌else◌, Bool, true, false, not, ◌&&◌, ◌||◌, Option, none,
  some, List, [], ◌∷◌, ◌++◌, length, is_nil,
}
pub mod Workers

-- The vector of waiting customers has its last item first here.
pub record DispatcherQueue : Type 0 where
  pub is_shutdown : Bool
  pub queue : List ℕ
  pub wakeup_in_progress : Bool
  pub max_thread_count : ℕ
  pub next_thread_wakeup_threshold : ℕ
  pub waiting_customers : List ℕ

-- The queue, and the threads that have been notified.
pub pop_and_notify_one_waiting_customer : DispatcherQueue → DispatcherQueue × List ℕ
pop_and_notify_one_waiting_customer q = elim q.waiting_customers [
  | [] ↦ (q, [])
  | t ∷ ts ↦ (record q { waiting_customers = ts; wakeup_in_progress = true }, t ∷ [])
]

pub try_wakeup_someone_if_possible : DispatcherQueue → DispatcherQueue × List ℕ
try_wakeup_someone_if_possible q =
    if not (is_nil q.queue)
      && (not (is_nil q.waiting_customers)
          && (not q.wakeup_in_progress
              && (ltb q.next_thread_wakeup_threshold (length q.queue)
                  || (q.max_thread_count == length q.waiting_customers))))
    then pop_and_notify_one_waiting_customer q
    else (q, [])

pub schedule : ℕ → DispatcherQueue → DispatcherQueue × List ℕ
schedule a q = try_wakeup_someone_if_possible (record q { queue = q.queue ++ a ∷ [] })

-- The loop of shutdown over `ts`, the waiting customers.
pub notify_all : List ℕ → DispatcherQueue → DispatcherQueue × List ℕ
notify_all [] q = (q, [])
notify_all (t ∷ ts) q =
    let r = pop_and_notify_one_waiting_customer q in
    let rest = notify_all ts r.0 in (rest.0, r.1 ++ rest.1)

pub shutdown : DispatcherQueue → DispatcherQueue × List ℕ
shutdown q = notify_all q.waiting_customers (record q { is_shutdown = true })

-- A round of the loop of pop: null, a queue with the threads notified, or a wait.
pub data Popped : Type 0 where
  nullptr : Popped
  takes : ℕ → DispatcherQueue → List ℕ → Popped
  waits : DispatcherQueue → Popped

pub pop_round : ℕ → DispatcherQueue → Popped
pop_round t q = if q.is_shutdown then nullptr else elim q.queue [
  | a ∷ rest ↦
      (let r = try_wakeup_someone_if_possible (record q { queue = rest }) in takes a r.0 r.1)
  | [] ↦ waits (record q { waiting_customers = t ∷ q.waiting_customers })
]

-- A round after the wait.
pub resume : ℕ → DispatcherQueue → Popped
resume t q = pop_round t (record q { wakeup_in_progress = false })

pub try_switch_to_another : ℕ → DispatcherQueue → Option ℕ × DispatcherQueue
try_switch_to_another current q = if q.is_shutdown then (none, q) else elim q.queue [
  | a ∷ rest ↦ (some a, record q { queue = rest ++ current ∷ [] })
  | [] ↦ (some current, q)
]

-- push of a queue of an agent: the queue, and whether it was empty and is to be scheduled.
pub push_demand : ℕ → List ℕ → List ℕ × Bool
push_demand d demands = (demands ++ d ∷ [], is_nil demands)

-- pop_result_t.
pub record PopResult : Type 0 where
  pub is_enabled : Bool
  pub is_empty : Bool

pub detect_continuation : ℕ → Bool → ℕ → Bool
detect_continuation max_demands_at_once empty processed =
    not empty && ltb processed max_demands_at_once

-- front and pop of a queue of an agent; none is a look at an empty queue.
pub pop_demand : ℕ → ℕ → List ℕ → Option (List ℕ × PopResult)
pop_demand max_demands_at_once processed [] = none
pop_demand max_demands_at_once processed (d ∷ rest) = some (
  rest,
  record {
    is_enabled = detect_continuation max_demands_at_once (is_nil rest) processed;
    is_empty = is_nil rest;
  },
)
