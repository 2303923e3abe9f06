-- ===== src/PrioOneThread/StrictlyOrdered/Invariant.antt =====
-- The strictly ordered demand queue: the current priority is the highest one that has demands.
use native.Mathlib.Decide.{ℕ_discrete}
use android_vendor_sobjectiz.Common.{
  ℕ, zero, suc, ◌≡◌, ◌≢◌, ◌<◌, ◌≤◌, ltb, if◌then◌else◌, dec_size, false, Option, none, some, List,
  [], ◌∷◌, ◌++◌, is_nil, length, length-append, arith, refl, Bool-cases, inl, inr, ◌⊎◌,
}
use android_vendor_sobjectiz.PrioOneThread.Priorities.{update, total_priorities_count}
use android_vendor_sobjectiz.PrioOneThread.StrictlyOrdered.{
  Subqueue, DemandQueue, make, push, add_demand_to_queue, raise, pop, pop_from, find_lower, popped,
  waits, Popped,
}

module _ {D : Type 0} where
  abbrev pub Highest : Option ℕ → (ℕ → Subqueue D) → Type 0
  Highest none f = (p : ℕ) → p < total_priorities_count → (f p).demands ≡ []
  Highest (some c) f =
      (c < total_priorities_count)
      × ((f c).demands ≢ [])
      × ((p : ℕ) → c < p → p < total_priorities_count → (f p).demands ≡ [])

  pub record IsSound (q : DemandQueue D) : Type 0 where
    pub counted : (p : ℕ) → (q.priorities p).demands_count ≡ length (q.priorities p).demands
    pub highest : Highest q.current_priority q.priorities

  pub make-IsSound : IsSound make
  make-IsSound = record { counted = λ p. refl; highest = λ p h. refl }

  append-ne-nil : (l : List D) (d : D) → l ++ d ∷ [] ≢ []
  append-ne-nil [] d e = cc
  append-ne-nil (x ∷ l) d e = cc

  push-counted :
      (prio : ℕ) (d : D) (q : DemandQueue D)
      → IsSound q
      → (p : ℕ)
      → ((push prio d q).0.priorities p).demands_count
        ≡ length ((push prio d q).0.priorities p).demands
  unfolding push
  push-counted prio d q s p =
      ground
        (arith, s.counted p, s.counted prio, length-append (q.priorities prio).demands (d ∷ []))

  -- The subqueues after a push.
  abbrev grown : (ℕ → Subqueue D) → ℕ → D → ℕ → Subqueue D
  grown f prio d = update f prio (add_demand_to_queue (f prio) d)

  grown-ne-nil :
      (f : ℕ → Subqueue D) (prio : ℕ) (d : D) (p : ℕ)
      → (p ≡ prio) ⊎ ((f p).demands ≢ [])
      → (grown f prio d p).demands ≢ []
  unfolding add_demand_to_queue
  grown-ne-nil f prio d p h = ground (arith, append-ne-nil (f p).demands d)

  grown-nil :
      (f : ℕ → Subqueue D) (prio : ℕ) (d : D) (p : ℕ)
      → p ≢ prio
      → (f p).demands ≡ []
      → (grown f prio d p).demands ≡ []
  unfolding add_demand_to_queue
  grown-nil f prio d p ne h = ground arith

  raise-Highest :
      (f : ℕ → Subqueue D) (prio : ℕ) (d : D) (c : Option ℕ)
      → prio < total_priorities_count
      → Highest c f
      → Highest (raise c prio) (grown f prio d)
  unfolding raise
  raise-Highest f prio d none h hi = (
    h,
    grown-ne-nil f prio d prio (inl refl),
    λ p lt top. grown-nil f prio d p (omega arith) (hi p top),
  )
  raise-Highest f prio d (some c) h (cs, full, above) = elim (Bool-cases (ltb c prio)) [
    | inl up ↦
        let lt : c < prio = ground arith in
        rw up (
          h,
          grown-ne-nil f prio d prio (inl refl),
          λ p pp top. grown-nil f prio d p (omega arith) (above p (omega arith) top),
        )
    | inr stays ↦
        let le : prio ≤ c = ground arith in
        rw stays (
          cs,
          grown-ne-nil f prio d c (inr full),
          λ p pp top. grown-nil f prio d p (omega arith) (above p pp top),
        )
  ]

  pub push-IsSound :
      (prio : ℕ) (d : D) (q : DemandQueue D)
      → prio < total_priorities_count
      → IsSound q
      → IsSound (push prio d q).0
  unfolding push
  push-IsSound prio d q h s = record {
    counted = push-counted prio d q s;
    highest = raise-Highest q.priorities prio d q.current_priority h s.highest;
  }

  -- Below a current priority whose subqueue got empty, the search finds the highest non-empty one.
  find_lower-Highest :
      (f : ℕ → Subqueue D) (c : ℕ)
      → c ≤ total_priorities_count
      → ((p : ℕ) → c ≤ p → p < total_priorities_count → (f p).demands ≡ [])
      → Highest (find_lower f c) f
  unfolding find_lower
  find_lower-Highest f zero h above = λ p top. above p (omega arith) top
  find_lower-Highest f (suc c) h above = elim (Bool-cases (is_nil (f c).demands)) [
    | inl nothing ↦ rw nothing (find_lower-Highest f c (omega arith) (one_more (ground arith)))
    | inr something ↦ rw something (h, (λ e. cc), above)
  ]
    where
      one_more :
          (f c).demands ≡ [] → (p : ℕ) → c ≤ p → p < total_priorities_count → (f p).demands ≡ []
      one_more e p cp top = elim (ℕ_discrete c p) [
        | yes same ↦ rw (← same) e
        | no other ↦ above p (omega arith) top
      ]

  -- What `pop` leaves when the head of subqueue `c` is `d` and `ds` is behind it.
  unfoldable pub after : DemandQueue D → ℕ → List D → DemandQueue D
  unfolding find_lower
  after q c ds =
      let s = q.priorities c in
      let f =
        update q.priorities c
          (record s { demands = ds; demands_count = dec_size s.demands_count }) in
      record q { priorities = f; current_priority = if is_nil ds then find_lower f c else some c }

  module _ (q : DemandQueue D) (c : ℕ) (hi : Highest (some c) q.priorities) where
    -- The subqueues when `ds` is left at `c`.
    abbrev left : List D → ℕ → Subqueue D
    left ds = update q.priorities c (record (q.priorities c) {
      demands = ds;
      demands_count = dec_size (q.priorities c).demands_count;
    })

    left-nil :
        (ds : List D) (p : ℕ)
        → (p ≡ c → ds ≡ [])
        → (p ≢ c → (q.priorities p).demands ≡ [])
        → (left ds p).demands ≡ []
    left-nil ds p here there = elim (ℕ_discrete p c) [
      | yes same ↦ ground (arith, here same)
      | no other ↦ ground (arith, there other)
    ]

    after-Highest :
        (ds : List D) → Highest (after q c ds).current_priority (after q c ds).priorities
    unfolding after
    after-Highest [] =
        find_lower-Highest (left []) c (omega (arith, hi.0))
          (λ p cp top. left-nil [] p (λ e. refl) (λ ne. hi.2 p (omega arith) top))
    after-Highest (x ∷ ds) = (
      hi.0,
      ground arith,
      λ p cp top. left-nil (x ∷ ds) p (λ e. absurd (omega arith)) (λ ne. hi.2 p cp top),
    )

    after-counted :
        (d : D) (ds : List D)
        → (q.priorities c).demands ≡ d ∷ ds
        → ((p : ℕ) → (q.priorities p).demands_count ≡ length (q.priorities p).demands)
        → (p : ℕ)
        → ((after q c ds).priorities p).demands_count ≡ length ((after q c ds).priorities p).demands
    unfolding after
    after-counted d ds e counted p = ground (arith, counted p, counted c)

    pub after-IsSound :
        (d : D) (ds : List D)
        → (q.priorities c).demands ≡ d ∷ ds
        → IsSound q
        → IsSound (after q c ds)
    after-IsSound d ds e s = record {
      counted = after-counted d ds e s.counted;
      highest = after-Highest ds;
    }

  -- What `pop` comes to on a sound queue that is not shut down, by the current priority.
  abbrev PopsFrom : DemandQueue D → Option ℕ → Popped D → Type 0
  PopsFrom q none r =
      (r ≡ waits) × ((p : ℕ) → p < total_priorities_count → (q.priorities p).demands ≡ [])
  PopsFrom q (some c) r =
      (d : D) × (ds : List D) × ((q.priorities c).demands ≡ d ∷ ds) × (r ≡ popped d (after q c ds))

  pub pop_lem :
      (q : DemandQueue D) (c : Option ℕ)
      → q.shutdown ≡ false
      → q.current_priority ≡ c
      → Highest c q.priorities
      → PopsFrom q c (pop q)
  unfolding pop pop_from after
  pop_lem q none o e hi = (rw (o, e, pop) refl, hi)
  pop_lem q (some c) o e (cs, full, above) = from (q.priorities c).demands refl
    where
      from : (l : List D) → (q.priorities c).demands ≡ l → PopsFrom q (some c) (pop q)
      from [] n = absurd (full n)
      from (d ∷ ds) n = (d, ds, n, ground arith)
