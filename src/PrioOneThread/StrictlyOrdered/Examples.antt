-- ===== src/PrioOneThread/StrictlyOrdered/Examples.antt =====
-- The strictly ordered queue: the theorems at a sequence of pushes, pops and a stop.
use android_vendor_sobjectiz.Common.{ℕ, ◌≡◌, ◌<◌, ◌↔◌, List, [], ◌∷◌, true, false, arith}
use android_vendor_sobjectiz.PrioOneThread.Priorities.{total_priorities_count}
use android_vendor_sobjectiz.PrioOneThread.StrictlyOrdered.{
  Action, pushes, pops, stops, binds, make, push, run, taken,
}
use android_vendor_sobjectiz.PrioOneThread.StrictlyOrdered.Invariant.{IsSound, make-IsSound}
use android_vendor_sobjectiz.PrioOneThread.StrictlyOrdered.Order.{
  AllInRange, run-IsSound, push-notifies,
}
use android_vendor_sobjectiz.PrioOneThread.StrictlyOrdered.Refinement.{
  priority_taken, taken-priority_taken,
}

abbrev actions : List (Action ℕ)
actions =
    binds 2
    ∷ pushes 2 10
    ∷ pushes 5 11
    ∷ pops
    ∷ pushes 0 12
    ∷ pops
    ∷ pops
    ∷ pops
    ∷ stops
    ∷ pops
    ∷ []

actions-AllInRange : AllInRange actions
actions-AllInRange =
    (tt, (omega arith, (omega arith, (tt, (omega arith, (tt, (tt, (tt, (tt, (tt, tt))))))))))

run-IsSound_example : IsSound (run make actions)
run-IsSound_example = run-IsSound make actions actions-AllInRange make-IsSound

push-notifies_example :
    ((push 4 20 (run make actions)).1 ≡ true)
    ↔ ((p : ℕ) → p < total_priorities_count → ((run make actions).priorities p).demands ≡ [])
push-notifies_example = push-notifies actions 4 20 actions-AllInRange

taken-priority_taken_example :
    taken make actions ≡ priority_taken (record { down = false; items = λ p. [] }) actions
taken-priority_taken_example = taken-priority_taken actions actions-AllInRange
