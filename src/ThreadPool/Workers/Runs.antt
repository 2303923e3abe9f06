-- ===== src/ThreadPool/Workers/Runs.antt =====
-- Every interleaving keeps a pool sound.
use android_vendor_sobjectiz.Common.{ℕ, Option, none, some, List, [], ◌∷◌, length, ◌<◌, refl, arith}
use android_vendor_sobjectiz.ThreadPool.Workers.{Pool, Action, step, run, start}
use android_vendor_sobjectiz.ThreadPool.Workers.Invariant.{Sound}
use android_vendor_sobjectiz.ThreadPool.Workers.Jobs.{Serves}
use android_vendor_sobjectiz.ThreadPool.Workers.Steps.{step-Serves}

run-from :
    (o : Option Pool) (actions : List Action)
    → Serves o
    → ((p : Pool) → Sound p → Serves (run p actions))
    → Serves (elim o [ none ↦ none | some p ↦ run p actions ])
run-from none actions g next = g
run-from (some p) actions g next = next p g

run-Sound : (p : Pool) (actions : List Action) → Sound p → Serves (run p actions)
unfolding run
run-Sound p [] v = v
run-Sound p (a ∷ actions) v =
    run-from (step p a) actions (step-Serves p v a) (λ p' s. run-Sound p' actions s)

-- In a pool of at least one thread, with any threshold and any number of demands at once, whatever
-- threads push demands, take queues, are woken, process and switch queues and shut down, in whatever
-- order: no thread looks at the front of an empty queue of demands; a queue of an agent is in at most
-- one hand, the one thread that processes it included, and in none if it is empty; before a shutdown
-- one that is not empty is in exactly one hand, and while the queue of the dispatcher is not empty some
-- thread does not sleep; after a shutdown no thread sleeps.
pub run-Serves :
    (threshold max_demands : ℕ) (threads : List ℕ) (actions : List Action)
    → 0 < length threads
    → Serves (run (start threshold max_demands threads) actions)
run-Serves threshold max_demands threads actions h =
    run-Sound (start threshold max_demands threads) actions (record {
      some_threads = h;
      held = λ a. omega arith;
      kept = λ e a. refl;
      crew = omega arith;
      wakes = λ e. (refl, refl);
      awake = λ e i. absurd (omega arith);
      shut = λ e. refl;
    })
