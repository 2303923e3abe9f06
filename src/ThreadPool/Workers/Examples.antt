-- ===== src/ThreadPool/Workers/Examples.antt =====
-- A pool of two threads, and the theorems at inputs that meet their hypotheses.
use android_vendor_sobjectiz.Common.{List, [], ◌∷◌, arith}
use android_vendor_sobjectiz.ThreadPool.Workers.{
  Action, pushes, schedules, pops, resumes, processes, switches_over, shuts_down, run, start,
}
use android_vendor_sobjectiz.ThreadPool.Workers.Jobs.{Serves}
use android_vendor_sobjectiz.ThreadPool.Workers.Runs.{run-Serves}

-- Both threads sleep; two queues get demands, one thread is woken and switches between them.
abbrev actions : List Action
actions =
    pops 0
    ∷ pops 0
    ∷ pushes 3 10
    ∷ pushes 3 11
    ∷ schedules 0
    ∷ pushes 4 12
    ∷ schedules 0
    ∷ resumes 0
    ∷ processes 0
    ∷ switches_over 0
    ∷ processes 0
    ∷ shuts_down
    ∷ []

run-Serves_example : Serves (run (start 1 1 (21 ∷ 22 ∷ [])) actions)
run-Serves_example = run-Serves 1 1 (21 ∷ 22 ∷ []) actions (omega arith)
