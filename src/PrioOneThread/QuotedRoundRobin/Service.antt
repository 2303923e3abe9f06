-- ===== src/PrioOneThread/QuotedRoundRobin/Service.antt =====
-- The quoted round robin queue: what `pop` gives, and in how many turns each priority is served.
use native.Mathlib.Decide.{ℕ_discrete}
use android_vendor_sobjectiz.Common.{
  ℕ, ◌≡◌, ◌≢◌, ◌<◌, false, List, [], ◌∷◌, length, arith, refl, inl, inr, ◌⊎◌, ap, sym, ◌∙◌,
}
use android_vendor_sobjectiz.PrioOneThread.Priorities.{total_priorities_count}
use android_vendor_sobjectiz.PrioOneThread.QuotedRoundRobin.{
  DemandQueue, find_demand, pop, pop_found, popped,
}
use android_vendor_sobjectiz.PrioOneThread.QuotedRoundRobin.Ring.{length-le-total, IsSound}
use android_vendor_sobjectiz.PrioOneThread.QuotedRoundRobin.Search.{cost, Found, find_demand-Found}
use android_vendor_sobjectiz.PrioOneThread.QuotedRoundRobin.Taken.{
  served, served-IsSound, served-demands, served-cost, pop_current_lem,
}

module _ {D : Type 0} where
  pop_lem :
      (q : DemandQueue D)
      → q.shutdown ≡ false
      → 0 < q.total_demands_count
      → pop q ≡ pop_found (find_demand total_priorities_count q)
  unfolding pop
  pop_lem q o h = ground arith

  -- A list that is not empty has a length.
  length-pos : (l : List D) → l ≢ [] → 0 < length l
  length-pos [] ne = absurd (ne refl)
  length-pos (d ∷ ds) ne = omega arith

  -- What a call of `pop` that takes `d` does for priority `p` which has demands: it serves that
  -- priority, or it serves another one and `p` gets nearer to its turn.
  pub record Progress (q : DemandQueue D) (p : ℕ) (d : D) (q' : DemandQueue D) : Type 0 where
    pub gives : pop q ≡ popped d q'
    pub sound : IsSound q'
    pub nearer :
        ((q.priorities p).demands ≡ d ∷ (q'.priorities p).demands)
        ⊎ (((q'.priorities p).demands ≡ (q.priorities p).demands) × (cost q' p < cost q p))

  abbrev pub Serves : DemandQueue D → ℕ → Type 0
  Serves q p = (d : D) × (q' : DemandQueue D) × Progress q p d q'

  Progress-of :
      (q r : DemandQueue D) (p : ℕ) (d : D) (ds : List D)
      → pop q ≡ pop_found r
      → p < total_priorities_count
      → Found q r p
      → (r.priorities r.current_priority).demands ≡ d ∷ ds
      → Progress q p d (served r ds)
  Progress-of q r p d ds pops hp f e = record {
    gives = pops ∙ pop_current_lem r d ds e;
    sound = served-IsSound r d ds f.sound e;
    nearer = elim (ℕ_discrete p r.current_priority) [
      | yes same ↦ inl (serves same)
      | no other ↦ inr (keeps other, omega (arith, cheaper other, f.no_dearer))
    ];
  }
    where
      serves :
          p ≡ r.current_priority
          → (q.priorities p).demands ≡ d ∷ ((served r ds).priorities p).demands
      serves same = ground (
        arith,
        served-demands r d ds f.sound e p,
        f.moved.same_demands p,
        ap (λ k. (r.priorities k).demands) same,
      )

      keeps :
          p ≢ r.current_priority → ((served r ds).priorities p).demands ≡ (q.priorities p).demands
      keeps other = ground (arith, served-demands r d ds f.sound e p, f.moved.same_demands p)

      cheaper : p ≢ r.current_priority → cost (served r ds) p < cost r p
      cheaper other = served-cost r d ds f.sound e p hp (λ same. other (sym same))

  -- On a sound queue that is not shut down no priority starves: while priority `p` has demands, `pop`
  -- takes a demand, and either it is the oldest one of `p`, or those of `p` stay and the number of
  -- demands that others may still be served first, `cost q p`, falls.
  pub pop-Progress :
      (q : DemandQueue D) (p : ℕ)
      → IsSound q
      → q.shutdown ≡ false
      → p < total_priorities_count
      → (q.priorities p).demands ≢ []
      → Serves q p
  pop-Progress q p s o hp ne = by (r.priorities r.current_priority).demands refl
    where
      r : DemandQueue D
      r = find_demand total_priorities_count q

      f : Found q r p
      f = find_demand-Found total_priorities_count q p s hp ne (omega arith)

      pops : pop q ≡ pop_found r
      pops = pop_lem q o (
          omega (
            arith,
            s.total_exact,
            length-pos _ ne,
            length-le-total q.priorities p total_priorities_count hp,
          ))

      by : (l : List D) → (r.priorities r.current_priority).demands ≡ l → Serves q p
      by [] e = absurd (f.some_demand e)
      by (d ∷ ds) e = (d, served r ds, Progress-of q r p d ds pops hp f e)
