-- ===== src/PrioOneThread/QuotedRoundRobin/Pushes.antt =====
-- The quoted round robin queue: a new queue is sound, and `push` keeps it so.
use android_vendor_sobjectiz.Common.{
  ℕ, ◌+◌, ◌≡◌, ◌<◌, [], ◌∷◌, ◌++◌, length, length-append, arith, refl, ap,
}
use android_vendor_sobjectiz.PrioOneThread.Priorities.{p_max, total_priorities_count}
use android_vendor_sobjectiz.PrioOneThread.QuotedRoundRobin.{
  Subqueue, DemandQueue, make, push, add_demand_to_queue,
}
use android_vendor_sobjectiz.PrioOneThread.QuotedRoundRobin.Ring.{total, total-change, IsSound}

module _ {D : Type 0} where
  pub push-IsSound :
      (prio : ℕ) (d : D) (q : DemandQueue D)
      → prio < total_priorities_count
      → IsSound q
      → IsSound (push prio d q).0
  unfolding push add_demand_to_queue
  push-IsSound prio d q h s = record {
    current_small = s.current_small;
    quotes_pos = λ p. ground (arith, s.quotes_pos p);
    counted = λ p.
        ground
          (arith, s.counted p, s.counted prio, length-append (q.priorities prio).demands (d ∷ []));
    fresh = λ p ne. ground (arith, s.fresh p);
    within = ground (arith, s.within);
    total_exact = omega (
      arith,
      s.total_exact,
      change,
      ap length here,
      length-append (q.priorities prio).demands (d ∷ []),
    );
  }
    where
      f : ℕ → Subqueue D
      f = (push prio d q).0.priorities

      change :
          total f total_priorities_count + length (q.priorities prio).demands
          ≡ total q.priorities total_priorities_count + length (f prio).demands
      change = total-change q.priorities f prio total_priorities_count h (λ p ne. ground arith)

      here : (f prio).demands ≡ (q.priorities prio).demands ++ d ∷ []
      here = ground arith

  -- A new queue is sound if no quote is zero, which `quotes_t` makes sure of.
  pub make-IsSound : (quotes : ℕ → ℕ) → ((p : ℕ) → 0 < quotes p) → IsSound {D = D} (make quotes)
  unfolding make total
  make-IsSound quotes pos = record {
    current_small = omega arith;
    quotes_pos = pos;
    counted = λ p. refl;
    fresh = λ p ne. refl;
    within = pos p_max;
    total_exact = refl;
  }
