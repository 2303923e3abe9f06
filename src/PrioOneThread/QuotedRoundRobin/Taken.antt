-- ===== src/PrioOneThread/QuotedRoundRobin/Taken.antt =====
-- The quoted round robin queue after one demand was taken, and what that costs the other priorities.
use android_vendor_sobjectiz.Common.{
  ℕ, ◌+◌, ◌-◌, ◌≡◌, ◌≢◌, ◌<◌, ◌==◌, leb, if◌then◌else◌, dec_size, Bool, true, false, List, ◌∷◌,
  length, arith, refl, ap,
}
use android_vendor_sobjectiz.PrioOneThread.Priorities.{update, total_priorities_count}
use android_vendor_sobjectiz.PrioOneThread.QuotedRoundRobin.{
  DemandQueue, switch_to_lower_priority, pop_current, pop_found, popped,
}
use android_vendor_sobjectiz.PrioOneThread.QuotedRoundRobin.Ring.{
  turns, ring_cost, ring_cost-cong, total, total-change, IsSound, switch-IsSound,
}
use android_vendor_sobjectiz.PrioOneThread.QuotedRoundRobin.Search.{cost, switch-cost}

module _ {D : Type 0} where
  -- One `pop` of `d` from `q`, of which the search has made `r`.
  pub taken : DemandQueue D → List D → DemandQueue D
  taken r ds =
      let c = r.current_priority in
      let s = r.priorities c in
      record r {
        priorities = update r.priorities c (record s {
          demands = ds;
          demands_count = dec_size s.demands_count;
          demands_processed = s.demands_processed + 1;
        });
        total_demands_count = dec_size r.total_demands_count;
      }

  -- After a demand was taken and before the switch.
  taken-total :
      (r : DemandQueue D) (d : D) (ds : List D)
      → IsSound r
      → (r.priorities r.current_priority).demands ≡ d ∷ ds
      → (taken r ds).total_demands_count ≡ total (taken r ds).priorities total_priorities_count
  unfolding taken
  taken-total r d ds s e = ground (
    arith,
    s.total_exact,
    ap length e,
    total-change r.priorities (taken r ds).priorities r.current_priority total_priorities_count
        s.current_small (λ p ne. ground arith),
  )

  -- The queue after a demand was taken and, with the quote used up, the switch.
  pub served : DemandQueue D → List D → DemandQueue D
  served r ds =
      let s = r.priorities r.current_priority in
      if leb s.quote (s.demands_processed + 1)
      then switch_to_lower_priority (taken r ds)
      else taken r ds

  module _ (r : DemandQueue D) (d : D) (ds : List D) (s : IsSound r)
      (e : (r.priorities r.current_priority).demands ≡ d ∷ ds) where
    taken-switched : IsSound (switch_to_lower_priority (taken r ds))
    unfolding taken
    taken-switched =
        switch-IsSound (taken r ds) s.current_small (λ p. ground (arith, s.quotes_pos p))
          (λ p. ground (arith, s.counted p, s.counted r.current_priority))
          (λ p ne. ground (arith, s.fresh p)) (taken-total r d ds s e)

    taken-IsSound :
        leb
            (r.priorities r.current_priority).quote
            ((r.priorities r.current_priority).demands_processed + 1)
          ≡ false
        → IsSound (taken r ds)
    unfolding taken
    taken-IsSound more = record {
      current_small = s.current_small;
      quotes_pos = λ p. ground (arith, s.quotes_pos p);
      counted = λ p. ground (arith, s.counted p, s.counted r.current_priority);
      fresh = λ p ne. ground (arith, s.fresh p);
      within = ground arith;
      total_exact = taken-total r d ds s e;
    }

    pub served-IsSound : IsSound (served r ds)
    unfolding served
    served-IsSound =
        by
          (leb (r.priorities r.current_priority).quote
            ((r.priorities r.current_priority).demands_processed + 1))
          refl
      where
        by :
            (b : Bool)
            → leb
                (r.priorities r.current_priority).quote
                ((r.priorities r.current_priority).demands_processed + 1)
              ≡ b
            → IsSound (if b then switch_to_lower_priority (taken r ds) else taken r ds)
        by true h = taken-switched
        by false h = taken-IsSound h

    pub served-demands :
        (p : ℕ)
        → ((served r ds).priorities p).demands
          ≡ (if p == r.current_priority then ds else (r.priorities p).demands)
    unfolding served taken switch_to_lower_priority
    served-demands p = ground arith

    way-taken :
        (n c : ℕ)
        → ring_cost (λ k. ((taken r ds).priorities k).quote) n c
          ≡ ring_cost (λ k. (r.priorities k).quote) n c
    unfolding taken
    way-taken n c = ring_cost-cong n c (λ k. ground arith)

    taken-cost :
        (p : ℕ)
        → p < total_priorities_count
        → r.current_priority ≢ p
        → cost (taken r ds) p < cost r p
    unfolding cost taken
    taken-cost p hp ne = ground (
      arith,
      way-taken (turns r.current_priority p) r.current_priority,
      switch-cost r p s.current_small hp ne,
      s.within,
    )

    switched-cost :
        (p : ℕ)
        → p < total_priorities_count
        → r.current_priority ≢ p
        → cost (switch_to_lower_priority (taken r ds)) p < cost r p
    switched-cost p hp ne =
        omega (arith, own, quote, switch-cost (taken r ds) p small hp other, way, s.within)
      where
        small : (taken r ds).current_priority < total_priorities_count
        small = unfold taken in s.current_small

        other : (taken r ds).current_priority ≢ p
        other = unfold taken in ne

        own :
            cost r p
            ≡ ring_cost
                (λ k. (r.priorities k).quote)
                (turns r.current_priority p)
                r.current_priority
              - (r.priorities r.current_priority).demands_processed
        own = unfold cost in refl

        quote :
            ((taken r ds).priorities (taken r ds).current_priority).quote
            ≡ (r.priorities r.current_priority).quote
        quote = unfold taken in ground arith

        way :
            ring_cost
              (λ k. ((taken r ds).priorities k).quote)
              (turns (taken r ds).current_priority p)
              (taken r ds).current_priority
            ≡ ring_cost
                (λ k. (r.priorities k).quote)
                (turns r.current_priority p)
                r.current_priority
        way = unfold taken in way-taken (turns r.current_priority p) r.current_priority

    pub served-cost :
        (p : ℕ)
        → p < total_priorities_count
        → r.current_priority ≢ p
        → cost (served r ds) p < cost r p
    unfolding served
    served-cost p hp ne = by (
        leb (r.priorities r.current_priority).quote
          ((r.priorities r.current_priority).demands_processed + 1))
      where
        by :
            (b : Bool)
            → cost (if b then switch_to_lower_priority (taken r ds) else taken r ds) p < cost r p
        by true = switched-cost p hp ne
        by false = taken-cost p hp ne

  pub pop_current_lem :
      (r : DemandQueue D) (d : D) (ds : List D)
      → (r.priorities r.current_priority).demands ≡ d ∷ ds
      → pop_found r ≡ popped d (served r ds)
  unfolding pop_current served taken
  pop_current_lem r d ds e = rw (e, pop_current) refl
