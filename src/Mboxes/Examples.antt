-- ===== src/Mboxes/Examples.antt =====
-- Runs of mboxes on concrete calls.
use android_vendor_sobjectiz.Common.{
  ◌+◌, leb, map, ◌<◌, ◌↔◌, ℕ, ◌≡◌, refl, arith, ◌==◌, if◌then◌else◌, one_if, Bool, true, none, some,
  List, [], ◌∷◌,
}
use android_vendor_sobjectiz.Mchain.Demand.{event, service_request}
use android_vendor_sobjectiz.Mboxes.Subscriber.{
  SubscriberInfo, delivery_possibility, must_be_delivered,
}
use android_vendor_sobjectiz.Mboxes.Local.{
  subscribe_event_handler, set_delivery_filter, drop_delivery_filter,
}
use android_vendor_sobjectiz.Mboxes.Local.Interests.{
  uninterested, Request, subscribe, unsubscribe, filter_by, requests, noted_all, AreAllowed,
}
use android_vendor_sobjectiz.Mboxes.Local.Entries.{entry}
use android_vendor_sobjectiz.Mboxes.Local.Refinement.{Refines, requests-Refines}
use android_vendor_sobjectiz.Mboxes.Local.Filters.{refilter-delivers}
use android_vendor_sobjectiz.Mboxes.Limits.{
  InfoStorage, Description, find, find_block, find_block_in_small_container, create_if_necessary,
  ControlBlock, redirect,
}
use android_vendor_sobjectiz.Mboxes.Delivery.{
  Mbox, local, limitless_mpsc, no_subscribers, pushed, limitful_mpsc, EventQueue, not_set, ready,
  throwing, lost, returned, null_dereference, ends, set_count, deliver,
}
use android_vendor_sobjectiz.Mboxes.Limits.Creation.{IsCreated, create-IsCreated}
use android_vendor_sobjectiz.Mboxes.Single.Subscribed.{
  SingleCall, subscribes, unsubscribes, filters, call_all, subscribed, unsubscribed, deliver-single,
}
use android_vendor_sobjectiz.Mboxes.Delivery.Accounts.{Accounts}
use android_vendor_sobjectiz.Mboxes.Delivery.Rounds.{deliver-Accounts}
use android_vendor_sobjectiz.Mboxes.Delivery.Faults.{lost-counted, unlimited-throws}
use android_vendor_sobjectiz.Mboxes.Delivery.Counters.{
  Action, arrive, back_off, commit, lose, fail, handle, no_traffic, act, run, IsWithin,
  run-IsWithin,
}
use android_vendor_sobjectiz.Mboxes.Delivery.Reaching.{deliver-reaches, reached, wants, IsUnlimited}

abbrev priority_of : ℕ → ℕ
priority_of a = if a == 5 then 7 else 0

-- Agent 3 subscribes to type 1 with the limit 9 and sets filter 4, agent 5 subscribes and goes.
abbrev calls : List Request
calls =
    subscribe 1 (some 9) 3
    ∷ filter_by 1 4 3
    ∷ subscribe 1 none 5
    ∷ subscribe 2 none 5
    ∷ unsubscribe 1 5
    ∷ []

calls-AreAllowed : AreAllowed calls uninterested
calls-AreAllowed = (λ h. refl, (λ h. cc, (λ h. refl, (λ h. refl, (tt, tt)))))

requests-Refines_example :
    Refines priority_of (requests priority_of calls (λ t. none)) (noted_all calls uninterested)
requests-Refines_example = requests-Refines priority_of calls calls-AreAllowed

abbrev only_a_filter : List Request
only_a_filter = filter_by 1 4 3 ∷ []

refilter-delivers_example :
    let b = requests priority_of only_a_filter (λ u. none) in
    let filtered = set_delivery_filter priority_of 1 6 3 b in
    let unfiltered = drop_delivery_filter priority_of 1 3 filtered in
    ((i : SubscriberInfo) × (entry filtered 1 3 ≡ some i)
      × (delivery_possibility (λ f. true) i ≡ some must_be_delivered))
    × ((i : SubscriberInfo) × (entry unfiltered 1 3 ≡ some i)
        × ((c : ℕ → Bool) → delivery_possibility c i ≡ some must_be_delivered))
refilter-delivers_example =
    refilter-delivers priority_of only_a_filter 1 3 4 6 (λ f. true) (λ h. refl, tt) refl refl

-- A limit of one that redirects to the mbox itself.
abbrev circle : ℕ → ControlBlock
circle k = record { limit = 1; action = redirect 0 }

abbrev one_limit : InfoStorage
one_limit = record {
  first = 0;
  blocks = record { msg_type = 1; control_block = record { limit = 1; action = redirect 0 } } ∷ [];
  small_container = true;
}

abbrev one_box : ℕ → Mbox
one_box b = limitful_mpsc 3 1 one_limit

abbrev all_ready : ℕ → EventQueue
all_ready a = ready

deliver-Accounts_example :
    Accounts circle
      (λ k. 1)
      (deliver all_ready circle (λ f a m. true) one_box 33 event 0 1 8 0 (λ k. 1))
deliver-Accounts_example =
    deliver-Accounts all_ready circle (λ f a m. true) one_box 33 event 0 1 8 0 (λ k. 1)
      (λ k. omega arith) (omega arith) (omega arith) (λ k. omega arith)

lost-counted_example :
    deliver (λ a. not_set) circle (λ f a m. true) one_box 1 event 0 1 8 0 (λ k. 0)
    ≡ ends returned (lost 3 (some 0) ∷ []) (set_count 0 1 (λ k. 0))
unfolding find find_block find_block_in_small_container
lost-counted_example =
    lost-counted (λ a. not_set) circle (λ f a m. true) one_box 0 event 0 3 1 8 0 (λ k. 0) 1 0
      one_limit refl refl (omega arith) refl (omega arith) (omega arith)

abbrev unlimited_box : ℕ → Mbox
unlimited_box b = local (subscribe_event_handler priority_of 1 none 3 (λ u. none))

unlimited-throws_example :
    deliver (λ a. throwing) circle (λ f a m. true) unlimited_box 1 service_request 0 1 8 0 (λ k. 0)
    ≡ ends null_dereference [] (λ k. 0)
unlimited-throws_example =
    unlimited-throws (λ a. throwing) circle (λ f a m. true) unlimited_box 0 service_request 0 3 1 8
      0 (λ k. 0) priority_of refl refl

abbrev filtered_calls : List Request
filtered_calls = subscribe 1 none 3 ∷ subscribe 1 none 5 ∷ filter_by 1 4 5 ∷ filter_by 1 4 6 ∷ []

abbrev filtered_box : ℕ → Mbox
filtered_box b = local (requests priority_of filtered_calls (λ t. none))

filtered_calls-IsUnlimited :
    (a : ℕ) → IsUnlimited (noted_all filtered_calls uninterested 1 a).subscription
filtered_calls-IsUnlimited a = ground arith

deliver-reaches_example :
    let d = deliver all_ready circle (λ f a m. a == 6) filtered_box 1 event 0 1 8 0 (λ k. 0) in
    (d ≡ ends returned d.effects (λ k. 0))
    × ((a : ℕ)
        → reached a d.effects
          ≡ one_if (wants (λ f. a == 6) (noted_all filtered_calls uninterested 1 a)))
deliver-reaches_example =
    deliver-reaches all_ready circle (λ f a m. a == 6) (λ a. refl) filtered_box 0 0 1 8 0 (λ k. 0)
      priority_of filtered_calls refl (λ h. refl, (λ h. refl, (λ h. cc, (λ h. refl, tt))))
      filtered_calls-IsUnlimited

-- Two threads pass the test and the third counts too many.
abbrev interleaving : List Action
interleaving = arrive ∷ arrive ∷ arrive ∷ commit ∷ back_off ∷ fail ∷ handle ∷ arrive ∷ lose ∷ []

run-IsWithin_example :
    let t = run 3 2 interleaving no_traffic in
    IsWithin 3 2 t
    × (((act 3 2 arrive t).pushing ≡ t.pushing + 1) ↔ ((t.over + t.pushing < 3) × (t.count < 2)))
run-IsWithin_example = run-IsWithin 3 2 interleaving (omega arith)

-- Ten types are searched by halves.
abbrev ten_limits : List Description
ten_limits =
    map (λ (t : ℕ). record { msg_type = t; limit = t; action = redirect 0 })
      (4 ∷ 9 ∷ 1 ∷ 7 ∷ 3 ∷ 8 ∷ 2 ∷ 6 ∷ 5 ∷ 10 ∷ [])

create-IsCreated_example : IsCreated ten_limits (create_if_necessary 0 ten_limits)
create-IsCreated_example = create-IsCreated 0 ten_limits

-- Agent 3 is the consumer, agent 4 tries in vain.
abbrev single_calls : List SingleCall
single_calls = subscribes 3 ∷ subscribes 4 ∷ subscribes 3 ∷ filters 3 ∷ unsubscribes 3 ∷ []

abbrev single_box : ℕ → Mbox
single_box b =
    limitless_mpsc
      (call_all single_calls
        (record { single_consumer = 3; subscriptions_count = 0 })).single_consumer
      (call_all single_calls
        (record { single_consumer = 3; subscriptions_count = 0 })).subscriptions_count

deliver-single_example :
    deliver all_ready circle (λ f a m. true) single_box 1 event 0 1 8 0 (λ k. 0)
    ≡ ends returned
        ((if leb (subscribed 3 single_calls) (unsubscribed 3 single_calls)
            then no_subscribers 0
            else pushed event 3 none 0 1 8)
          ∷ [])
        (λ k. 0)
deliver-single_example =
    deliver-single all_ready circle (λ f a m. true) single_box 0 0 1 8 0 (λ k. 0) 3 single_calls
      refl (omega arith, tt) refl
