-- ===== src/PrioOneThread/QuotedRoundRobin/Ring.antt =====
-- The quoted round robin queue: the turn over the priorities, and the search for a demand.
use native.Mathlib.Decide.{ℕ_discrete}
use android_vendor_sobjectiz.Common.{
  ℕ, zero, suc, ◌+◌, ◌-◌, ◌%◌, ◌≡◌, ◌≢◌, ◌<◌, ◌≤◌, ltb, if◌then◌else◌, List, [], ◌∷◌, length, arith,
  refl, ap, sym, ◌∙◌,
}
use android_vendor_sobjectiz.PrioOneThread.Priorities.{p_max, total_priorities_count}
use android_vendor_sobjectiz.PrioOneThread.QuotedRoundRobin.{
  Subqueue, DemandQueue, switch_to_lower_priority,
}

-- How many switches lead from priority `c` to priority `p`.
abbrev pub turns : ℕ → ℕ → ℕ
turns c p = (c + total_priorities_count - p) % total_priorities_count

abbrev pub lower : ℕ → ℕ
lower c = if ltb 0 c then c - 1 else p_max

pub turns-lower :
    (c p : ℕ)
    → c < total_priorities_count
    → p < total_priorities_count
    → c ≢ p
    → (turns c p ≡ suc (turns (lower c) p)) × (lower c < total_priorities_count)
turns-lower c p hc hp ne = ground arith

-- The quotes of the priorities on the way of `n` switches from `c`.
unfoldable pub ring_cost : (ℕ → ℕ) → ℕ → ℕ → ℕ
ring_cost quotes zero c = 0
ring_cost quotes (suc n) c = quotes c + ring_cost quotes n (lower c)

pub ring_cost-cong :
    {f g : ℕ → ℕ} (n c : ℕ) → ((k : ℕ) → f k ≡ g k) → ring_cost f n c ≡ ring_cost g n c
unfolding ring_cost
ring_cost-cong zero c h = refl
ring_cost-cong (suc n) c h = omega (arith, h c, ring_cost-cong n (lower c) h)

-- The number of demands below priority `n`.
unfoldable pub total : {D : Type 0} → (ℕ → Subqueue D) → ℕ → ℕ
total f zero = 0
total f (suc n) = total f n + length (f n).demands

module _ {D : Type 0} where
  pub total-same :
      (f g : ℕ → Subqueue D) (n : ℕ)
      → ((p : ℕ) → p < n → (g p).demands ≡ (f p).demands)
      → total g n ≡ total f n
  unfolding total
  total-same f g zero h = refl
  total-same f g (suc n) h =
      omega (arith, total-same f g n (λ p lt. h p (omega arith)), ap length (h n (omega arith)))

  -- A change of one subqueue changes the total by as much.
  pub total-change :
      (f g : ℕ → Subqueue D) (i n : ℕ)
      → i < n
      → ((p : ℕ) → p ≢ i → (g p).demands ≡ (f p).demands)
      → total g n + length (f i).demands ≡ total f n + length (g i).demands
  unfolding total
  total-change f g i zero h same = absurd (omega arith)
  total-change f g i (suc n) h same = elim (ℕ_discrete i n) [
    | yes here ↦
        let below = total-same f g n (λ p lt. same p (omega arith)) in
        rw here (omega (arith, below))
    | no other ↦
        let below = total-change f g i n (omega arith) same in
        let last = ap length (same n (λ e. other (omega arith))) in omega (arith, below, last)
  ]

  -- A queue that is not empty has a demand at some priority.
  pub total-pos :
      (f : ℕ → Subqueue D) (n : ℕ) → 0 < total f n → (p : ℕ) × (p < n) × ((f p).demands ≢ [])
  unfolding total
  total-pos f zero h = absurd (omega arith)
  total-pos f (suc n) h = from (λ pos. total-pos f n pos) (f n).demands refl
    where
      from :
          (0 < total f n → (p : ℕ) × (p < n) × ((f p).demands ≢ []))
          → (l : List D) → (f n).demands ≡ l
          → (p : ℕ) × (p < suc n) × ((f p).demands ≢ [])
      from ih [] e = let (p, lt, ne) = ih (omega (arith, ap length e)) in (p, omega arith, ne)
      from ih (d ∷ ds) e = (n, omega arith, λ e'. cc)

  pub length-le-total : (f : ℕ → Subqueue D) (p n : ℕ) → p < n → length (f p).demands ≤ total f n
  unfolding total
  length-le-total f p zero h = absurd (omega arith)
  length-le-total f p (suc n) h = elim (ℕ_discrete p n) [
    | yes same ↦ rw same (omega arith)
    | no other ↦ omega (arith, length-le-total f p n (omega arith))
  ]

  pub record IsSound (q : DemandQueue D) : Type 0 where
    pub current_small : q.current_priority < total_priorities_count
    pub quotes_pos : (p : ℕ) → 0 < (q.priorities p).quote
    pub counted : (p : ℕ) → (q.priorities p).demands_count ≡ length (q.priorities p).demands
    -- Only the current subqueue has used some of its quote, and not all of it.
    pub fresh : (p : ℕ) → p ≢ q.current_priority → (q.priorities p).demands_processed ≡ 0
    pub within :
        (q.priorities q.current_priority).demands_processed
        < (q.priorities q.current_priority).quote
    pub total_exact : q.total_demands_count ≡ total q.priorities total_priorities_count

  -- A switch leaves the demands and the quotes alone.
  pub record Switched (q r : DemandQueue D) : Type 0 where
    pub same_demands : (p : ℕ) → (r.priorities p).demands ≡ (q.priorities p).demands
    pub same_quote : (p : ℕ) → (r.priorities p).quote ≡ (q.priorities p).quote
    pub same_count : r.total_demands_count ≡ q.total_demands_count
    pub same_shutdown : r.shutdown ≡ q.shutdown

  pub switch-Switched : (q : DemandQueue D) → Switched q (switch_to_lower_priority q)
  unfolding switch_to_lower_priority
  switch-Switched q = record {
    same_demands = λ p. ground arith;
    same_quote = λ p. ground arith;
    same_count = refl;
    same_shutdown = refl;
  }

  pub switch-current :
      (q : DemandQueue D) → (switch_to_lower_priority q).current_priority ≡ lower q.current_priority
  unfolding switch_to_lower_priority
  switch-current q = refl

  -- `processed` may have used up the quote before a switch.
  pub switch-IsSound :
      (q : DemandQueue D)
      → q.current_priority < total_priorities_count
      → ((p : ℕ) → 0 < (q.priorities p).quote)
      → ((p : ℕ) → (q.priorities p).demands_count ≡ length (q.priorities p).demands)
      → ((p : ℕ) → p ≢ q.current_priority → (q.priorities p).demands_processed ≡ 0)
      → q.total_demands_count ≡ total q.priorities total_priorities_count
      → IsSound (switch_to_lower_priority q)
  unfolding switch_to_lower_priority
  switch-IsSound q small pos counted fresh exact = record {
    current_small = ground arith;
    quotes_pos = λ p. ground (arith, pos p);
    counted = λ p. ground (arith, counted p);
    fresh = λ p ne. ground (arith, fresh p);
    within = ground (
      arith,
      fresh (lower q.current_priority),
      pos (lower q.current_priority),
      pos q.current_priority,
    );
    total_exact =
        exact
        ∙ sym (
            total-same q.priorities (switch_to_lower_priority q).priorities total_priorities_count
              (λ p lt. (switch-Switched q).same_demands p));
  }

  pub switched : (q : DemandQueue D) → IsSound q → IsSound (switch_to_lower_priority q)
  switched q s = switch-IsSound q s.current_small s.quotes_pos s.counted s.fresh s.total_exact
