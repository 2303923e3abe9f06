-- ===== src/PrioOneThread/StrictlyOrdered/Refinement.antt =====
-- The strictly ordered demand queue against an abstract one, which has no current priority: it holds a
-- list of demands for each priority and searches all of them, from the top, for each demand it gives.
use mathlib.Core.Path.{fun_ext}
use native.Mathlib.Decide.{ℕ_discrete}
use android_vendor_sobjectiz.Common.{
  ℕ, zero, suc, ◌≡◌, ◌<◌, ◌≤◌, if◌then◌else◌, Bool, true, false, Option, none, some, List, [], ◌∷◌,
  ◌++◌, is_nil, arith, refl, ap, ap₂, ◌∙◌,
}
use android_vendor_sobjectiz.PrioOneThread.Priorities.{update, total_priorities_count}
use android_vendor_sobjectiz.PrioOneThread.StrictlyOrdered.{
  Subqueue, DemandQueue, make, push, pop, shutdown_ex, Action, pushes, pops, stops, binds, unbinds,
  step, taken, stop, agent_bound, agent_unbound, add_demand_to_queue, after_pop,
}
use android_vendor_sobjectiz.PrioOneThread.StrictlyOrdered.Invariant.{
  IsSound, Highest, make-IsSound, after, pop_lem,
}
use android_vendor_sobjectiz.PrioOneThread.StrictlyOrdered.Order.{AllInRange, step-IsSound}

pub record PriorityQueue (D : Type 0) : Type 0 where
  pub down : Bool
  pub items : ℕ → List D

module _ {D : Type 0} where
  -- The highest of the first `n` priorities that has demands.
  pub top_below : (ℕ → List D) → ℕ → Option ℕ
  top_below f zero = none
  top_below f (suc n) = let rest = top_below f n in if is_nil (f n) then rest else some n

  pub take_at : PriorityQueue D → Option ℕ → PriorityQueue D × Option D
  take_at s none = (s, none)
  take_at s (some c) = elim (s.items c) [
    | [] ↦ (s, none)
    | d ∷ ds ↦ (record s { items = update s.items c ds }, some d)
  ]

  pub priority_step : PriorityQueue D → Action D → PriorityQueue D × Option D
  unfolding take_at
  priority_step s (pushes prio d) =
      (record s { items = update s.items prio (s.items prio ++ d ∷ []) }, none)
  priority_step s pops =
      if s.down then (s, none) else take_at s (top_below s.items total_priorities_count)
  priority_step s stops = (record s { down = true }, none)
  priority_step s _ = (s, none)

  pub priority_taken : PriorityQueue D → List (Action D) → List (Option D)
  priority_taken s [] = []
  priority_taken s (a ∷ as_) = (priority_step s a).1 ∷ priority_taken (priority_step s a).0 as_

  abbrev pub view : DemandQueue D → PriorityQueue D
  view q = record { down = q.shutdown; items = λ p. (q.priorities p).demands }

  -- A cached highest priority is what the search from the top finds.
  top_below-Highest :
      (f : ℕ → Subqueue D) (c : Option ℕ) (n : ℕ)
      → n ≤ total_priorities_count
      → Highest c f
      → ((k : ℕ) → c ≡ some k → k < n)
      → top_below (λ p. (f p).demands) n ≡ c
  unfolding top_below
  top_below-Highest f none zero h hi b = refl
  top_below-Highest f (some c) zero h hi b = absurd (omega (arith, b c refl))
  top_below-Highest f none (suc n) h hi b =
      rw (hi n (omega arith)) (top_below-Highest f none n (omega arith) hi (λ k e. cc))
  top_below-Highest f (some c) (suc n) h hi b = elim (ℕ_discrete c n) [
    | yes same ↦ ground (arith, hi.1, same)
    | no other ↦
        let lt : c < n = omega (arith, b c refl) in
        rw (hi.2 n lt (omega arith))
          (top_below-Highest f (some c) n (omega arith) hi (λ k e. ground arith))
  ]

  abbrev Agrees : DemandQueue D × Option D → PriorityQueue D × Option D → Type 0
  Agrees r s = (view r.0 ≡ s.0) × (r.1 ≡ s.1)

  top :
      (q : DemandQueue D) (c : Option ℕ)
      → q.current_priority ≡ c
      → IsSound q
      → top_below (view q).items total_priorities_count ≡ c
  top q none e s =
      top_below-Highest q.priorities none total_priorities_count (omega arith) (rw e at s.highest)
        (λ k e. cc)
  top q (some c) e s =
      let hi = rw e at s.highest in
      top_below-Highest q.priorities (some c) total_priorities_count (omega arith) hi
        (λ k e. ground (arith, hi.0))

  same_items :
      (b : Bool) (f g : ℕ → List D)
      → ((p : ℕ) → f p ≡ g p)
      → ◌≡◌ {A = PriorityQueue D} (record { down = b; items = f }) (record { down = b; items = g })
  same_items b f g h = ap (λ k. record { down = b; items = k }) (fun_ext h)

  view-after :
      (q : DemandQueue D) (c : ℕ) (ds : List D)
      → view (after q c ds) ≡ record { down = q.shutdown; items = update (view q).items c ds }
  unfolding after
  view-after q c ds = same_items q.shutdown _ _ (λ p. ground arith)

  pop-Agrees :
      (q : DemandQueue D) (c : Option ℕ)
      → q.current_priority ≡ c
      → q.shutdown ≡ false
      → IsSound q
      → Agrees
          (after_pop q (pop q))
          (take_at (view q) (top_below (view q).items total_priorities_count))
  unfolding after_pop take_at
  pop-Agrees q none e o s =
      rw (top q none e s, (pop_lem q none o e (rw e at s.highest)).0) (refl, refl)
  pop-Agrees q (some c) e o s =
      let (d, ds, n, r) = pop_lem q (some c) o e (rw e at s.highest) in
      rw (top q (some c) e s, r) (simp (n, take_at) (view-after q c ds, refl))

  shut-Agrees : (q : DemandQueue D) → q.shutdown ≡ true → after_pop q (pop q) ≡ (q, none)
  unfolding pop after_pop
  shut-Agrees q e = let r : pop q ≡ shutdown_ex = ground arith in rw r refl

  pops_by :
      (q : DemandQueue D) (b : Bool)
      → q.shutdown ≡ b
      → IsSound q
      → Agrees (after_pop q (pop q)) (
          if b
          then (view q, none)
          else take_at (view q) (top_below (view q).items total_priorities_count))
  pops_by q true e s = let r = shut-Agrees q e in (ap (λ k. view k.0) r, ap (λ k. k.1) r)
  pops_by q false e s = pop-Agrees q q.current_priority refl e s

  step-Agrees :
      (q : DemandQueue D) (a : Action D) → IsSound q → Agrees (step q a) (priority_step (view q) a)
  unfolding step priority_step push stop agent_bound agent_unbound add_demand_to_queue
  step-Agrees q (pushes prio d) s = (same_items q.shutdown _ _ (λ p. ground arith), refl)
  step-Agrees q pops s = pops_by q q.shutdown refl s
  step-Agrees q stops s = (refl, refl)
  step-Agrees q (binds prio) s = (same_items q.shutdown _ _ (λ p. ground arith), refl)
  step-Agrees q (unbinds prio) s = (same_items q.shutdown _ _ (λ p. ground arith), refl)

  taken-Agrees :
      (q : DemandQueue D) (as_ : List (Action D))
      → AllInRange as_
      → IsSound q
      → taken q as_ ≡ priority_taken (view q) as_
  unfolding taken priority_taken
  taken-Agrees q [] h s = refl
  taken-Agrees q (a ∷ as_) h s =
      let (same, out) = step-Agrees q a s in
      ap₂ ◌∷◌ out (
        taken-Agrees (step q a).0 as_ h.1 (step-IsSound q a h.0 s)
        ∙ ap (λ v. priority_taken v as_) same)

  -- For every sequence of actions on a new queue, with pushes at priorities that there are, each call
  -- of `pop` gives the demand that the abstract queue gives: the oldest one of the highest priority
  -- that has demands, or nothing when there is none or the queue is shut down.
  pub taken-priority_taken :
      (as_ : List (Action D))
      → AllInRange as_
      → taken make as_ ≡ priority_taken (record { down = false; items = λ p. [] }) as_
  taken-priority_taken as_ h = taken-Agrees make as_ h make-IsSound
