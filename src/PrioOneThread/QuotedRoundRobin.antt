-- ===== src/PrioOneThread/QuotedRoundRobin.antt =====
-- so_5/disp/prio_one_thread/quoted_round_robin/h/quotes.hpp and impl/h/demand_queue.hpp: the demand
-- queue of the quoted round robin dispatcher. Lists and priorities stand for pointers as in
-- StrictlyOrdered; the pointer to the current subqueue is its priority and is never null.
use android_vendor_sobjectiz.Common.{
  ℕ, zero, suc, ◌+◌, ◌-◌, ◌==◌, ltb, leb, if◌then◌else◌, dec_size, Bool, true, false, not, Option,
  none, some, List, [], ◌∷◌, ◌++◌, is_nil, Result, ok, err, priority_quote_illegal_value,
}
use android_vendor_sobjectiz.PrioOneThread.Priorities.{update, p_max, total_priorities_count}
pub mod Ring
pub mod Search
pub mod Pushes
pub mod Service
pub mod Taken
pub mod Waits
mod Examples

abbrev pub Quotes : Type 0
Quotes = ℕ → ℕ

-- ensure_quote_not_zero, and the constructor and `set` of quotes_t.
pub make_quotes : ℕ → Result Quotes
make_quotes v = if v == 0 then err priority_quote_illegal_value else ok (λ p. v)

pub set_quote : ℕ → ℕ → Quotes → Result Quotes
set_quote prio v quotes =
    if v == 0 then err priority_quote_illegal_value else ok (update quotes prio v)

pub record Subqueue (D : Type 0) : Type 0 where
  pub demands : List D
  pub quote : ℕ
  pub demands_processed : ℕ
  pub agents_count : ℕ
  pub demands_count : ℕ

pub record DemandQueue (D : Type 0) : Type 0 where
  pub shutdown : Bool
  pub total_demands_count : ℕ
  pub priorities : ℕ → Subqueue D
  pub current_priority : ℕ

-- `spins` is the search for a demand that finds none within its fuel.
pub data Popped (D : Type 0) : Type 0 where
  waits shutdown_ex spins : Popped D
  popped : D → DemandQueue D → Popped D

module _ {D : Type 0} where
  pub make : Quotes → DemandQueue D
  make quotes = record {
    shutdown = false;
    total_demands_count = 0;
    priorities = λ p. record {
      demands = [];
      quote = quotes p;
      demands_processed = 0;
      agents_count = 0;
      demands_count = 0;
    };
    current_priority = p_max;
  }

  pub stop : DemandQueue D → DemandQueue D × Bool
  stop q = (record q { shutdown = true }, q.total_demands_count == 0)

  pub add_demand_to_queue : Subqueue D → D → Subqueue D
  add_demand_to_queue s d = record s {
    demands = s.demands ++ d ∷ [];
    demands_count = s.demands_count + 1;
  }

  pub push : ℕ → D → DemandQueue D → DemandQueue D × Bool
  unfolding add_demand_to_queue
  push prio d q = (
    record q {
      priorities = update q.priorities prio (add_demand_to_queue (q.priorities prio) d);
      total_demands_count = q.total_demands_count + 1;
    },
    q.total_demands_count + 1 == 1,
  )

  pub switch_to_lower_priority : DemandQueue D → DemandQueue D
  switch_to_lower_priority q =
      let c = q.current_priority in
      record q {
        priorities = update q.priorities c (record (q.priorities c) { demands_processed = 0 });
        current_priority = if ltb 0 c then c - 1 else p_max;
      }

  -- The loop that looks for a subqueue with a demand.
  pub find_demand : ℕ → DemandQueue D → DemandQueue D
  find_demand zero q = q
  find_demand (suc fuel) q =
      let rest = find_demand fuel (switch_to_lower_priority q) in
      if is_nil (q.priorities q.current_priority).demands then rest else q

  -- The rest of `pop`, on the list of the current subqueue.
  pub pop_current : DemandQueue D → List D → Popped D
  pop_current q [] = spins
  pop_current q (d ∷ ds) =
      let c = q.current_priority in
      let s = q.priorities c in
      let s' = record s {
        demands = ds;
        demands_count = dec_size s.demands_count;
        demands_processed = s.demands_processed + 1;
      } in
      let q' = record q {
        priorities = update q.priorities c s';
        total_demands_count = dec_size q.total_demands_count;
      } in
      popped d (if leb s.quote (s.demands_processed + 1) then switch_to_lower_priority q' else q')

  abbrev pub pop_found : DemandQueue D → Popped D
  pop_found q = pop_current q (q.priorities q.current_priority).demands

  -- A turn over all priorities is fuel enough.
  pub pop : DemandQueue D → Popped D
  pop q =
      if q.shutdown
      then shutdown_ex
      else if q.total_demands_count == 0
      then waits
      else pop_found (find_demand total_priorities_count q)

  pub agent_bound : ℕ → DemandQueue D → DemandQueue D
  agent_bound prio q =
      let s = q.priorities prio in
      record q {
        priorities = update q.priorities prio (record s { agents_count = s.agents_count + 1 });
      }

  pub agent_unbound : ℕ → DemandQueue D → DemandQueue D
  agent_unbound prio q =
      let s = q.priorities prio in
      record q {
        priorities = update q.priorities prio (record s { agents_count = dec_size s.agents_count });
      }
