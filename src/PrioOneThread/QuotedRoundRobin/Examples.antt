-- ===== src/PrioOneThread/QuotedRoundRobin/Examples.antt =====
-- The quoted round robin queue: the theorems at a queue with two demands and quotes of two.
use android_vendor_sobjectiz.Common.{ℕ, ◌≡◌, ◌≢◌, ◌<◌, ◌↔◌, [], false, arith, refl}
use android_vendor_sobjectiz.PrioOneThread.Priorities.{total_priorities_count}
use android_vendor_sobjectiz.PrioOneThread.QuotedRoundRobin.{
  DemandQueue, make, push, pop, waits, spins,
}
use android_vendor_sobjectiz.PrioOneThread.QuotedRoundRobin.Ring.{IsSound}
use android_vendor_sobjectiz.PrioOneThread.QuotedRoundRobin.Pushes.{make-IsSound, push-IsSound}
use android_vendor_sobjectiz.PrioOneThread.QuotedRoundRobin.Service.{Serves, pop-Progress}
use android_vendor_sobjectiz.PrioOneThread.QuotedRoundRobin.Waits.{pop-waits}

abbrev idle : DemandQueue ℕ
idle = make (λ p. 2)

abbrev busy : DemandQueue ℕ
busy = (push 6 11 (push 3 10 idle).0).0

idle-IsSound : IsSound idle
idle-IsSound = make-IsSound {D = ℕ} (λ p. 2) (λ p. omega arith)

busy-IsSound : IsSound busy
busy-IsSound =
    push-IsSound 6 11 (push 3 10 idle).0 (omega arith)
      (push-IsSound 3 10 idle (omega arith) idle-IsSound)

pop-Progress_example : Serves busy 3
unfolding push make
pop-Progress_example = pop-Progress busy 3 busy-IsSound refl (omega arith) (λ e. cc)

pop-waits_example :
    ((pop busy ≡ waits) ↔ (
      (busy.shutdown ≡ false)
      × ((p : ℕ) → p < total_priorities_count → (busy.priorities p).demands ≡ [])))
    × (pop busy ≢ spins)
pop-waits_example = pop-waits busy busy-IsSound
