-- ===== src/ThreadPool/Workers.antt =====
-- The threads of a pool around its queues, with the threads that push demands. A list of actions is an
-- interleaving of the parts that run under one lock.
use android_vendor_sobjectiz.Common.{
  ℕ, zero, suc, ◌+◌, ◌==◌, if◌then◌else◌, Bool, true, false, not, Option, none, some, List, [], ◌∷◌,
  ◌++◌, length,
}
use android_vendor_sobjectiz.ThreadPool.{
  DispatcherQueue, schedule, shutdown, Popped, nullptr, takes, waits, pop_round, resume,
  try_switch_to_another, push_demand, PopResult, pop_demand,
}
pub mod Invariant
pub mod Jobs
pub mod Steps
pub mod Runs
mod Examples

-- What a working thread does: process_queue on a queue, or the attempt to switch that follows.
pub record Job : Type 0 where
  pub thread : ℕ
  pub agent_queue : ℕ
  pub demands_processed : ℕ
  pub switches : Bool

-- `pushed` are the queues that a push found empty and has not scheduled yet; `idle` are the threads
-- that go to pop a queue, `woken` those that were notified in it.
pub record Pool : Type 0 where
  pub disp_queue : DispatcherQueue
  pub demands : ℕ → List ℕ
  pub max_demands_at_once : ℕ
  pub pushed : List ℕ
  pub idle : List ℕ
  pub woken : List ℕ
  pub jobs : List Job
  pub finished : List ℕ

pub data Action : Type 0 where
  pushes : ℕ → ℕ → Action
  schedules pops resumes processes switches_over : ℕ → Action
  shuts_down : Action

-- The item at an index, and the others.
pub pick {ℓ} : {A : Type ℓ} → ℕ → List A → Option (A × List A)
pick i [] = none
pick zero (x ∷ xs) = some (x, xs)
pick (suc i) (x ∷ xs) = elim (pick i xs) [ none ↦ none | some r ↦ some (r.0, x ∷ r.1) ]

abbrev pub at : ℕ → List ℕ → (ℕ → List ℕ) → ℕ → List ℕ
at a ds f b = if b == a then ds else f b

abbrev pub job : ℕ → ℕ → ℕ → Bool → Job
job t a n s = record { thread = t; agent_queue = a; demands_processed = n; switches = s }

-- After a round of pop of the thread `t`, which is in no list of `p`.
pub popped : ℕ → Pool → Popped → Pool
popped t p nullptr = record p { finished = t ∷ p.finished }
popped t p (takes a q ts) = record p {
  disp_queue = q;
  woken = p.woken ++ ts;
  jobs = job t a 0 false ∷ p.jobs;
}
popped t p (waits q) = record p { disp_queue = q }

-- An index that is out of range stands for an action that is not enabled. None is a look at the
-- front of an empty queue. The handler of the demand is called at the start of `processes`.
pub step : Pool → Action → Option Pool
step p (pushes a d) =
    let r = push_demand d (p.demands a) in
    some
      (record p { demands = at a r.0 p.demands; pushed = if r.1 then a ∷ p.pushed else p.pushed })
step p (schedules i) = elim (pick i p.pushed) [
  | none ↦ some p
  | some r ↦
      (let s = schedule r.0 p.disp_queue in
        some (record p { pushed = r.1; disp_queue = s.0; woken = p.woken ++ s.1 }))
]
step p (pops i) = elim (pick i p.idle) [
  | none ↦ some p
  | some r ↦ some (popped r.0 (record p { idle = r.1 }) (pop_round r.0 p.disp_queue))
]
step p (resumes i) = elim (pick i p.woken) [
  | none ↦ some p
  | some r ↦ some (
      popped r.0
        (record p { woken = r.1; disp_queue = record p.disp_queue { wakeup_in_progress = false } })
        (resume r.0 p.disp_queue))
]
step p (processes i) = elim (pick i p.jobs) [
  | none ↦ some p
  | some r ↦
      if r.0.switches
      then some p
      else (let n = r.0.demands_processed + 1 in
          elim (pop_demand p.max_demands_at_once n (p.demands r.0.agent_queue)) [
            | none ↦ none
            | some o ↦
                let left = record p { demands = at r.0.agent_queue o.0 p.demands; jobs = r.1 } in
                if o.1.is_enabled
                then some (record left { jobs = job r.0.thread r.0.agent_queue n false ∷ r.1 })
                else if o.1.is_empty
                then some (record left { idle = r.0.thread ∷ p.idle })
                else some (record left { jobs = job r.0.thread r.0.agent_queue n true ∷ r.1 })
          ])
]
step p (switches_over i) = elim (pick i p.jobs) [
  | none ↦ some p
  | some r ↦
      if r.0.switches
      then (let s = try_switch_to_another r.0.agent_queue p.disp_queue in
          elim s.0 [
            | none ↦ some (record p { disp_queue = s.1; jobs = r.1; idle = r.0.thread ∷ p.idle })
            | some a ↦ some (record p { disp_queue = s.1; jobs = job r.0.thread a 0 false ∷ r.1 })
          ])
      else some p
]
step p shuts_down =
    let s = shutdown p.disp_queue in some (record p { disp_queue = s.0; woken = p.woken ++ s.1 })

pub run : Pool → List Action → Option Pool
run p [] = some p
run p (a ∷ actions) = elim (step p a) [ none ↦ none | some p' ↦ run p' actions ]

-- A pool with these threads, its queues empty.
abbrev pub start : ℕ → ℕ → List ℕ → Pool
start threshold max_demands threads = record {
  disp_queue = record {
    is_shutdown = false;
    queue = [];
    wakeup_in_progress = false;
    max_thread_count = length threads;
    next_thread_wakeup_threshold = threshold;
    waiting_customers = [];
  };
  demands = λ a. [];
  max_demands_at_once = max_demands;
  pushed = [];
  idle = threads;
  woken = [];
  jobs = [];
  finished = [];
}
