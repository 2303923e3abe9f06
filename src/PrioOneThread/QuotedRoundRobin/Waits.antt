-- ===== src/PrioOneThread/QuotedRoundRobin/Waits.antt =====
-- The quoted round robin queue: when its thread sleeps.
use native.Mathlib.Decide.{dec_lt}
use android_vendor_sobjectiz.Common.{ℕ, ◌≡◌, ◌≢◌, ◌<◌, false, List, [], ◌∷◌, arith, refl, ◌↔◌}
use android_vendor_sobjectiz.PrioOneThread.Priorities.{total_priorities_count}
use android_vendor_sobjectiz.PrioOneThread.QuotedRoundRobin.{DemandQueue, pop, waits, spins}
use android_vendor_sobjectiz.PrioOneThread.QuotedRoundRobin.Ring.{total-pos, IsSound}
use android_vendor_sobjectiz.PrioOneThread.QuotedRoundRobin.Service.{pop-Progress}

module _ {D : Type 0} where
  -- The working thread of a sound queue sleeps exactly if the queue is not shut down and no priority has
  -- a demand, and the search for a demand never goes round all priorities without finding one.
  pub pop-waits :
      (q : DemandQueue D)
      → IsSound q
      → ((pop q ≡ waits) ↔ (
          (q.shutdown ≡ false)
          × ((p : ℕ) → p < total_priorities_count → (q.priorities p).demands ≡ [])))
        × (pop q ≢ spins)
  pop-waits q s = ((forth, λ h. back h.0 h.1), ends)
    where
      some_waits :
          (p : ℕ)
          → p < total_priorities_count
          → (q.priorities p).demands ≢ []
          → q.shutdown ≡ false
          → pop q ≢ waits
      some_waits p hp ne o w = let (d, q', g) = pop-Progress q p s o hp ne in cc (g.gives)

      opened : pop q ≡ waits → q.shutdown ≡ false
      opened = unfold pop in λ w. ground arith

      forth :
          pop q ≡ waits
          → (q.shutdown ≡ false)
            × ((p : ℕ) → p < total_priorities_count → (q.priorities p).demands ≡ [])
      forth w = (opened w, λ p hp. empty p hp (q.priorities p).demands refl)
        where
          empty :
              (p : ℕ)
              → p < total_priorities_count
              → (l : List D) → (q.priorities p).demands ≡ l
              → (q.priorities p).demands ≡ []
          empty p hp [] e = e
          empty p hp (d ∷ ds) e = absurd (some_waits p hp (λ e'. cc) (opened w) w)

      nothing :
          ((p : ℕ) → p < total_priorities_count → (q.priorities p).demands ≡ [])
          → q.total_demands_count ≡ 0
      nothing all = elim (dec_lt 0 q.total_demands_count) [
        | yes pos ↦
            let (p, hp, ne) =
              total-pos q.priorities total_priorities_count (omega (arith, s.total_exact)) in
            absurd (ne (all p hp))
        | no none_left ↦ omega (arith)
      ]

      back :
          q.shutdown ≡ false
          → ((p : ℕ) → p < total_priorities_count → (q.priorities p).demands ≡ [])
          → pop q ≡ waits
      back o all = unfold pop in ground (arith, nothing all)

      finds : q.shutdown ≡ false → 0 < q.total_demands_count → pop q ≢ spins
      finds o pos w =
          let (p, hp, ne) =
            total-pos q.priorities total_priorities_count (omega (arith, s.total_exact)) in
          let (d, q', g) = pop-Progress q p s o hp ne in cc (g.gives)

      searches : pop q ≡ spins → (q.shutdown ≡ false) × (0 < q.total_demands_count)
      searches = unfold pop in λ w. (ground arith, ground arith)

      ends : pop q ≢ spins
      ends w = let (o, pos) = searches w in finds o pos w
