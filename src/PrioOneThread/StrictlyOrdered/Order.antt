-- ===== src/PrioOneThread/StrictlyOrdered/Order.antt =====
-- The strictly ordered demand queue: in what order demands leave it, and when its thread sleeps.
use android_vendor_sobjectiz.Common.{
  ℕ, ◌≡◌, ◌<◌, true, false, Option, none, some, List, [], ◌∷◌, arith, refl, Bool-cases, inl, inr,
  ◌↔◌,
}
use android_vendor_sobjectiz.PrioOneThread.Priorities.{update, total_priorities_count}
use android_vendor_sobjectiz.PrioOneThread.StrictlyOrdered.{
  DemandQueue, make, push, pop, shutdown_ex, Action, pushes, pops, stops, binds, unbinds, step, run,
  stop, agent_bound, agent_unbound, after_pop,
}
use android_vendor_sobjectiz.PrioOneThread.StrictlyOrdered.Invariant.{
  IsSound, Highest, make-IsSound, push-IsSound, after-IsSound, pop_lem,
}

module _ {D : Type 0} where
  -- Actions push at a priority that there is.
  abbrev pub InRange : Action D → Type 0
  InRange (pushes prio d) = prio < total_priorities_count
  InRange _ = Unit

  abbrev pub AllInRange : List (Action D) → Type 0
  AllInRange [] = Unit
  AllInRange (a ∷ as_) = InRange a × AllInRange as_

  pop-IsSound :
      (q : DemandQueue D) (c : Option ℕ)
      → q.current_priority ≡ c
      → IsSound q
      → IsSound (after_pop q (pop q)).0
  unfolding pop after_pop
  pop-IsSound q c e s = elim (Bool-cases q.shutdown) [
    | inl down ↦ shut down
    | inr o ↦ by_current c e o
  ]
    where
      shut : q.shutdown ≡ true → IsSound (after_pop q (pop q)).0
      shut down = let r : pop q ≡ shutdown_ex = ground arith in rw r s

      by_current :
          (c : Option ℕ)
          → q.current_priority ≡ c
          → q.shutdown ≡ false
          → IsSound (after_pop q (pop q)).0
      by_current none e o = let h = rw e at s.highest in rw (pop_lem q none o e h).0 s
      by_current (some c) e o =
          let h = rw e at s.highest in
          let (d, ds, n, r) = pop_lem q (some c) o e h in rw r (after-IsSound q c h d ds n s)

  bind-IsSound :
      (q : DemandQueue D) (prio n : ℕ)
      → IsSound q
      → IsSound (record q {
        priorities = update q.priorities prio (record (q.priorities prio) { agents_count = n });
      })
  bind-IsSound q prio n s = record {
    counted = λ p. ground (arith, s.counted p);
    highest = same q.current_priority s.highest;
  }
    where
      same :
          (c : Option ℕ)
          → Highest c q.priorities
          → Highest c (update q.priorities prio (record (q.priorities prio) { agents_count = n }))
      same none h = λ p top. ground (arith, h p top)
      same (some c) h = (h.0, λ e. h.1 (ground arith), λ p cp top. ground (arith, h.2 p cp top))

  pub step-IsSound :
      (q : DemandQueue D) (a : Action D) → InRange a → IsSound q → IsSound (step q a).0
  unfolding step stop agent_bound agent_unbound
  step-IsSound q (pushes prio d) h s = push-IsSound prio d q h s
  step-IsSound q pops h s = pop-IsSound q q.current_priority refl s
  step-IsSound q stops h s = record { counted = s.counted; highest = s.highest }
  step-IsSound q (binds prio) h s = bind-IsSound q prio _ s
  step-IsSound q (unbinds prio) h s = bind-IsSound q prio _ s

  -- Actions at priorities that there are keep a queue sound: every subqueue counts its demands, and
  -- the cached priority is the highest one with demands, or none is cached and no subqueue has any.
  pub run-IsSound :
      (q : DemandQueue D) (as_ : List (Action D)) → AllInRange as_ → IsSound q → IsSound (run q as_)
  unfolding run
  run-IsSound q [] h s = s
  run-IsSound q (a ∷ as_) h s = run-IsSound (step q a).0 as_ h.1 (step-IsSound q a h.0 s)

  -- After any actions at priorities that there are, made on a new queue, a push notifies the working
  -- thread exactly if no subqueue holds a demand.
  pub push-notifies :
      (as_ : List (Action D)) (prio : ℕ) (d : D)
      → AllInRange as_
      → ((push prio d (run make as_)).1 ≡ true)
        ↔ ((p : ℕ) → p < total_priorities_count → ((run make as_).priorities p).demands ≡ [])
  unfolding push
  push-notifies as_ prio d h =
      by_current (run make as_).current_priority refl (run-IsSound make as_ h make-IsSound).highest
    where
      q : DemandQueue D
      q = run make as_

      by_current :
          (c : Option ℕ)
          → q.current_priority ≡ c
          → Highest c q.priorities
          → ((push prio d q).1 ≡ true)
            ↔ ((p : ℕ) → p < total_priorities_count → (q.priorities p).demands ≡ [])
      by_current none e hi = (λ t. hi, λ all. ground arith)
      by_current (some c) e hi = (λ t. absurd (ground arith), λ all. absurd (hi.1 (all c hi.0)))
