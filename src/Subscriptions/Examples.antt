-- ===== src/Subscriptions/Examples.antt =====
-- Subscription storages: runs on concrete requests, and the theorems at inputs that meet their
-- hypotheses.
use android_vendor_sobjectiz.Common.{if◌then◌else◌, ◌++◌, ℕ, ◌≡◌, true, false, some, List, [], ◌∷◌}
use android_vendor_sobjectiz.Subscriptions.Data.{Info, unsubscribe_event_handlers}
use android_vendor_sobjectiz.Subscriptions.Equivalence.{
  dropped, Request, create_event_subscription, drop_subscription, drop_subscription_for_all_states,
  find_handler, query_subscriptions_count, answers, after, adaptive-vector, map-vector,
}
use android_vendor_sobjectiz.Subscriptions.Mboxes.{hear_all, is_held, hear_all-answers}
use android_vendor_sobjectiz.Subscriptions.Adaptive
use android_vendor_sobjectiz.Subscriptions.MapBased
use android_vendor_sobjectiz.Subscriptions.MapBased.Destructor.{life-destroy}
use android_vendor_sobjectiz.Subscriptions.MapBased.Laws as MapLaws
use android_vendor_sobjectiz.Subscriptions.VectorBased
use android_vendor_sobjectiz.Subscriptions.VectorBased.{Held}
use android_vendor_sobjectiz.Subscriptions.VectorBased.Destructor.{
  calls_to, is_held_by, calls-destroy_all_subscriptions,
}
use android_vendor_sobjectiz.Subscriptions.VectorBased.Laws as VectorLaws

abbrev in_state : ℕ → ℕ → Info
in_state k h = record { mbox = 1; msg_type = 5; state = k; handler = h }

-- Two subscriptions, one that is there already, a switch back to the small storage.
abbrev requests : List Request
requests =
    create_event_subscription (in_state 0 10) 3 false
    ∷ create_event_subscription (in_state 1 11) 3 false
    ∷ create_event_subscription (in_state 1 12) 3 false
    ∷ find_handler 1 5 1
    ∷ drop_subscription 1 5 0
    ∷ query_subscriptions_count
    ∷ drop_subscription_for_all_states 1 5
    ∷ create_event_subscription (in_state 2 13) 3 true
    ∷ []

adaptive-vector_example :
    answers (Adaptive.ops VectorBased.ops MapBased.ops) (Adaptive.make 1 [] []) requests
    ≡ answers VectorBased.ops [] requests
adaptive-vector_example =
    adaptive-vector VectorLaws.laws MapLaws.laws 1 [] [] requests VectorLaws.make-IsValid.0
      MapLaws.make-IsValid.0 VectorLaws.make-IsValid.1 MapLaws.make-IsValid.1

map-vector_example : answers MapBased.ops [] requests ≡ answers VectorBased.ops [] requests
map-vector_example = map-vector requests

hear_all-answers_example :
    hear_all 1 5 (is_held MapLaws.laws 1 5 []) (answers MapBased.ops [] requests)
    ≡ some (is_held MapLaws.laws 1 5 (after MapBased.ops [] requests))
hear_all-answers_example = hear_all-answers MapLaws.laws 1 5 [] requests tt MapLaws.make-IsValid.0

life-destroy_example :
    hear_all 1 5 false (
      answers MapBased.ops [] requests
      ++ dropped (MapBased.destroy_all_subscriptions (after MapBased.ops [] requests)) ∷ [])
    ≡ some false
life-destroy_example = life-destroy 1 5 requests tt

-- The second and the third subscription hold an object with the id of the first one's.
abbrev held : List Held
held =
    record { info = in_state 0 10; address = 80 }
    ∷ record { info = in_state 1 11; address = 64 }
    ∷ record { info = in_state 2 12; address = 64 }
    ∷ []

calls-destroy_all_subscriptions_example :
    calls_to 64 5 (VectorBased.destroy_all_subscriptions held)
    ≡ (if is_held_by 64 5 held then unsubscribe_event_handlers 64 5 ∷ [] else [])
calls-destroy_all_subscriptions_example = calls-destroy_all_subscriptions 64 5 held
