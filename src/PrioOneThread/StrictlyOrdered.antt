-- ===== src/PrioOneThread/StrictlyOrdered.antt =====
-- so_5/disp/prio_one_thread/strictly_ordered/impl/h/demand_queue.hpp: the demand queue of the strictly
-- ordered dispatcher. A linked list of demands between m_head and m_tail is a list, its head first; a
-- null m_head is the empty list. A pointer to a subqueue is its priority. An operation is the part
-- under the lock; a push or a stop also says whether it notifies the working thread.
use android_vendor_sobjectiz.Common.{
  ℕ, zero, suc, ◌+◌, ◌-◌, ltb, if◌then◌else◌, dec_size, Bool, true, false, not, Option, none, some,
  List, [], ◌∷◌, ◌++◌, is_nil,
}
use android_vendor_sobjectiz.PrioOneThread.Priorities.{update}
pub mod Invariant
pub mod Order
pub mod Refinement
mod Examples

pub record Subqueue (D : Type 0) : Type 0 where
  pub demands : List D
  pub agents_count : ℕ
  pub demands_count : ℕ

pub record DemandQueue (D : Type 0) : Type 0 where
  pub shutdown : Bool
  pub current_priority : Option ℕ
  pub priorities : ℕ → Subqueue D

-- What one call of `pop` comes to: a wait for a notification, the exception shutdown_ex_t, a demand,
-- or a read through a null head.
pub data Popped (D : Type 0) : Type 0 where
  waits shutdown_ex null_head : Popped D
  popped : D → DemandQueue D → Popped D

-- The current priority after a push.
raise : Option ℕ → ℕ → Option ℕ
raise none prio = some prio
raise (some c) prio = if ltb c prio then some prio else some c

module _ {D : Type 0} where
  abbrev pub make : DemandQueue D
  make = record {
    shutdown = false;
    current_priority = none;
    priorities = λ p. record { demands = []; agents_count = 0; demands_count = 0 };
  }

  pub stop : DemandQueue D → DemandQueue D × Bool
  stop q = (record q { shutdown = true }, elim q.current_priority [ none ↦ true | some c ↦ false ])

  add_demand_to_queue : Subqueue D → D → Subqueue D
  add_demand_to_queue s d = record s {
    demands = s.demands ++ d ∷ [];
    demands_count = s.demands_count + 1;
  }

  pub push : ℕ → D → DemandQueue D → DemandQueue D × Bool
  unfolding add_demand_to_queue raise
  push prio d q = (
    record q {
      priorities = update q.priorities prio (add_demand_to_queue (q.priorities prio) d);
      current_priority = raise q.current_priority prio;
    },
    elim q.current_priority [ none ↦ true | some c ↦ false ],
  )

  -- The search for a non-empty subqueue below the current one.
  find_lower : (ℕ → Subqueue D) → ℕ → Option ℕ
  find_lower f zero = none
  find_lower f (suc c) = let rest = find_lower f c in if is_nil (f c).demands then rest else some c

  pop_from : DemandQueue D → ℕ → List D → Popped D
  unfolding find_lower
  pop_from q c [] = null_head
  pop_from q c (d ∷ ds) =
      let s = q.priorities c in
      let f =
        update q.priorities c
          (record s { demands = ds; demands_count = dec_size s.demands_count }) in
      popped d (record q {
        priorities = f;
        current_priority = if is_nil ds then find_lower f c else some c;
      })

  pub pop : DemandQueue D → Popped D
  unfolding pop_from
  pop q =
      if q.shutdown
      then shutdown_ex
      else elim q.current_priority [ none ↦ waits | some c ↦ pop_from q c (q.priorities c).demands ]

  pub agent_bound : ℕ → DemandQueue D → DemandQueue D
  agent_bound prio q =
      let s = q.priorities prio in
      record q {
        priorities = update q.priorities prio (record s { agents_count = s.agents_count + 1 });
      }

  pub agent_unbound : ℕ → DemandQueue D → DemandQueue D
  agent_unbound prio q =
      let s = q.priorities prio in
      record q {
        priorities = update q.priorities prio (record s { agents_count = dec_size s.agents_count });
      }

-- What the working thread and the agents do to the queue.
pub data Action (D : Type 0) : Type 0 where
  pushes : ℕ → D → Action D
  pops stops : Action D
  binds unbinds : ℕ → Action D

module _ {D : Type 0} where
  pub after_pop : DemandQueue D → Popped D → DemandQueue D × Option D
  after_pop q (popped d q') = (q', some d)
  after_pop q _ = (q, none)

  -- The queue after an action, and the demand that was taken, if any.
  pub step : DemandQueue D → Action D → DemandQueue D × Option D
  unfolding after_pop
  step q (pushes prio d) = ((push prio d q).0, none)
  step q pops = after_pop q (pop q)
  step q stops = ((stop q).0, none)
  step q (binds prio) = (agent_bound prio q, none)
  step q (unbinds prio) = (agent_unbound prio q, none)

  pub run : DemandQueue D → List (Action D) → DemandQueue D
  run q [] = q
  run q (a ∷ as_) = run (step q a).0 as_

  -- What the calls of `pop` give, call by call.
  pub taken : DemandQueue D → List (Action D) → List (Option D)
  taken q [] = []
  taken q (a ∷ as_) = (step q a).1 ∷ taken (step q a).0 as_
