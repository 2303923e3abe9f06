-- ===== src/Mchain/Chain/World/Examples.antt =====
-- Message chains: runs on concrete chains, and the theorems at inputs that meet their hypotheses.
use android_vendor_sobjectiz.Common.{◌≡◌, ◌++◌, refl, true, none, some, List, [], ◌∷◌}
use android_vendor_sobjectiz.Mchain.Demand.{Demand, Params, event, remove_oldest, drop_content}
use android_vendor_sobjectiz.Mchain.Queue.Refinement.{
  Call, call_run, fifo_run, preallocated-fifo_run, preallocated-dynamic, push_back, pop_front,
  front, is_full,
}
use android_vendor_sobjectiz.Mchain.Queue.LimitedDynamic
use android_vendor_sobjectiz.Mchain.Queue.Preallocated
use android_vendor_sobjectiz.Mchain.Queue.Preallocated.{PreallocatedQueue}
use android_vendor_sobjectiz.Mchain.Queue.Preallocated.Laws
use android_vendor_sobjectiz.Mchain.Chain.{
  closed_chain, make, store, store_resume, push_demand, wake_receivers, extract, extract_resume,
  extract_demand_from_not_empty_queue, extract_for_select, close,
}
use android_vendor_sobjectiz.Mchain.Chain.LateStore.{Leaves, close-store_resume}
use android_vendor_sobjectiz.Mchain.Chain.World.{
  Action, start, run, step, act, settle, sender_wakes_with, receiver_wakes_with, take_nth, deliver,
  send, sender_wakes, receive, receiver_wakes, selects, stored_of, left_of,
}
use android_vendor_sobjectiz.Mchain.Chain.World.Wakeups.{IsAwake}
use android_vendor_sobjectiz.Mchain.Chain.World.Runs.{run-fifo, run-IsAwake}

abbrev first_demand : Demand
first_demand = record { msg_type = 7; message_ref = some 1; demand_type = event }

abbrev second_demand : Demand
second_demand = record { msg_type = 7; message_ref = some 2; demand_type = event }

abbrev third_demand : Demand
third_demand = record { msg_type = 8; message_ref = none; demand_type = event }

abbrev calls : List Call
calls =
    push_back first_demand
    ∷ push_back second_demand
    ∷ is_full
    ∷ front
    ∷ pop_front
    ∷ push_back third_demand
    ∷ []

preallocated-fifo_run_example :
    call_run Preallocated.ops (Preallocated.make 2) calls
    ≡ fifo_run (record { items = []; limit = some 2 }) calls
preallocated-fifo_run_example = preallocated-fifo_run 2 calls

preallocated-dynamic_example :
    call_run Preallocated.ops (Preallocated.make 2) calls
    ≡ call_run LimitedDynamic.ops (LimitedDynamic.make 2) calls
preallocated-dynamic_example = preallocated-dynamic 2 calls

abbrev params : Params
params = record {
  overflow_timeout_defined = true;
  overflow_reaction = remove_oldest;
  not_empty_notificator = true;
}

-- A receiver sleeps, two senders come, a third one sleeps on the full chain, the receiver wakes, and
-- the sleeping sender goes on.
abbrev actions : List Action
actions =
    receive
    ∷ send first_demand
    ∷ send second_demand
    ∷ send third_demand
    ∷ receiver_wakes
    ∷ sender_wakes 0
    ∷ selects 4
    ∷ []

run-fifo_example :
    stored_of (run Preallocated.ops params (start (Preallocated.make 2)) actions).1
    ≡ left_of (run Preallocated.ops params (start (Preallocated.make 2)) actions).1
      ++ Laws.laws.contents
          (run Preallocated.ops params (start (Preallocated.make 2)) actions).0.chain.queue
run-fifo_example =
    run-fifo Laws.laws params (Preallocated.make 2) actions (Laws.make-empty 2).0
      (Laws.make-empty 2).1

run-IsAwake_example :
    IsAwake
      (Preallocated.ops.size
        (run Preallocated.ops params (start (Preallocated.make 2)) actions).0.chain.queue)
      (Preallocated.ops.is_full
        (run Preallocated.ops params (start (Preallocated.make 2)) actions).0.chain.queue)
      (run Preallocated.ops params (start (Preallocated.make 2)) actions).0
run-IsAwake_example =
    run-IsAwake Laws.laws params (Preallocated.make 2) actions (Laws.make-empty 2).0
      (Laws.make-empty 2).1

close-store_resume_example :
    Leaves (close Preallocated.ops drop_content (make (Preallocated.make 2))) (λ c'.
      Leaves
        (store_resume Preallocated.ops params third_demand c')
        (λ c''. (c''.status ≡ closed_chain) × (Laws.laws.contents c''.queue ≡ third_demand ∷ [])))
close-store_resume_example =
    let (v, empty, limit) = Laws.make-empty 2 in
    close-store_resume Laws.laws params third_demand (make (Preallocated.make 2)) v refl
      (rw limit refl)

-- The actions above, run: the third demand is stored when its sender wakes.
actions-run :
    stored_of (run Preallocated.ops params (start (Preallocated.make 2)) actions).1
    ≡ first_demand ∷ second_demand ∷ third_demand ∷ []
unfolding run step act settle start Preallocated.ops Preallocated.make store store_resume
    push_demand wake_receivers extract extract_resume extract_demand_from_not_empty_queue
    extract_for_select sender_wakes_with receiver_wakes_with take_nth deliver stored_of
actions-run = refl
