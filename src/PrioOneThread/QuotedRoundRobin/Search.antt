-- ===== src/PrioOneThread/QuotedRoundRobin/Search.antt =====
-- The quoted round robin queue: the search for a demand, and what may be served before a priority.
use android_vendor_sobjectiz.Common.{
  ℕ, zero, suc, ◌+◌, ◌-◌, ◌≡◌, ◌≢◌, ◌<◌, ◌≤◌, if◌then◌else◌, List, [], ◌∷◌, is_nil, arith, refl,
  ◌∙◌,
}
use android_vendor_sobjectiz.PrioOneThread.Priorities.{total_priorities_count}
use android_vendor_sobjectiz.PrioOneThread.QuotedRoundRobin.{
  DemandQueue, switch_to_lower_priority, find_demand,
}
use android_vendor_sobjectiz.PrioOneThread.QuotedRoundRobin.Ring.{
  turns, lower, turns-lower, ring_cost, ring_cost-cong, IsSound, Switched, switch-Switched,
  switch-current, switched,
}

module _ {D : Type 0} where
  -- How many demands may still be served before priority `p` gets its turn.
  unfoldable pub cost : DemandQueue D → ℕ → ℕ
  cost q p =
      ring_cost (λ k. (q.priorities k).quote) (turns q.current_priority p) q.current_priority
      - (q.priorities q.current_priority).demands_processed

  pub switch-cost :
      (q : DemandQueue D) (p : ℕ)
      → q.current_priority < total_priorities_count
      → p < total_priorities_count
      → q.current_priority ≢ p
      → cost (switch_to_lower_priority q) p + (q.priorities q.current_priority).quote
        ≤ ring_cost (λ k. (q.priorities k).quote) (turns q.current_priority p) q.current_priority
  unfolding cost ring_cost
  switch-cost q p hc hp ne =
      let t = (turns-lower q.current_priority p hc hp ne).0 in
      rw (t, switch-current q, ring_cost)
        (omega (
          arith,
          ring_cost-cong (turns (lower q.current_priority) p) (lower q.current_priority)
              (switch-Switched q).same_quote,
        ))

  -- What the search finds with fuel for the turns to a priority that has demands.
  pub record Found (q r : DemandQueue D) (p : ℕ) : Type 0 where
    pub sound : IsSound r
    pub moved : Switched q r
    pub some_demand : (r.priorities r.current_priority).demands ≢ []
    pub no_dearer : cost r p ≤ cost q p

  Found-here :
      (q : DemandQueue D) (p : ℕ)
      → IsSound q
      → (q.priorities q.current_priority).demands ≢ []
      → Found q q p
  Found-here q p s ne = record {
    sound = s;
    moved = record {
      same_demands = λ p. refl;
      same_quote = λ p. refl;
      same_count = refl;
      same_shutdown = refl;
    };
    some_demand = ne;
    no_dearer = omega arith;
  }

  Found-later :
      (q r : DemandQueue D) (p : ℕ)
      → IsSound q
      → p < total_priorities_count
      → q.current_priority ≢ p
      → Found (switch_to_lower_priority q) r p
      → Found q r p
  unfolding cost
  Found-later q r p s hp ne f = record {
    sound = f.sound;
    moved = record {
      same_demands = λ k. f.moved.same_demands k ∙ (switch-Switched q).same_demands k;
      same_quote = λ k. f.moved.same_quote k ∙ (switch-Switched q).same_quote k;
      same_count = f.moved.same_count ∙ (switch-Switched q).same_count;
      same_shutdown = f.moved.same_shutdown ∙ (switch-Switched q).same_shutdown;
    };
    some_demand = f.some_demand;
    no_dearer = omega (arith, f.no_dearer, switch-cost q p s.current_small hp ne, s.within);
  }

  pub find_demand-Found :
      (fuel : ℕ) (q : DemandQueue D) (p : ℕ)
      → IsSound q
      → p < total_priorities_count
      → (q.priorities p).demands ≢ []
      → turns q.current_priority p < fuel
      → Found q (find_demand fuel q) p
  unfolding find_demand
  find_demand-Found zero q p s hp ne h = absurd (omega arith)
  find_demand-Found (suc fuel) q p s hp ne h =
      by_head (q.priorities q.current_priority).demands refl (λ other.
        let t = turns-lower q.current_priority p s.current_small hp other in
        find_demand-Found fuel (switch_to_lower_priority q) p (switched q s) hp
          (rw ((switch-Switched q).same_demands p) ne) (rw (switch-current q) (omega (arith, t.0))))
    where
      by_head :
          (l : List D)
          → (q.priorities q.current_priority).demands ≡ l
          → (q.current_priority ≢ p
              → Found
                  (switch_to_lower_priority q)
                  (find_demand fuel (switch_to_lower_priority q))
                  p)
          → Found q (if is_nil l then find_demand fuel (switch_to_lower_priority q) else q) p
      by_head [] e later =
          let other : q.current_priority ≢ p = λ same. ne (rw (← same) e) in
          Found-later q _ p s hp other (later other)
      by_head (d ∷ ds) e later = Found-here q p s (λ e'. cc)
