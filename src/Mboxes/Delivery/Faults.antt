-- ===== src/Mboxes/Delivery/Faults.antt =====
-- A demand that nobody gets, and an exception where there is no limit.
use android_vendor_sobjectiz.Common.{
  ℕ, suc, ◌+◌, ◌<◌, ◌≡◌, ◌≢◌, refl, arith, ◌==◌, ltb, Bool, true, false, Option, none, some, [],
  ◌∷◌, no_svc_handlers,
}
use android_vendor_sobjectiz.Mchain.Demand.{InvocationType, event, service_request}
use android_vendor_sobjectiz.Mboxes.Subscriber.{subscription_info, delivery_possibility}
use android_vendor_sobjectiz.Mboxes.Container.{
  Container, empty_container, elements, insert, insert_to_storage, insert_to_vector, lower_bound,
  insert_at,
}
use android_vendor_sobjectiz.Mboxes.Local.{
  MessagesTable, subscribe_event_handler, insert_or_modify_subscriber,
}
use android_vendor_sobjectiz.Mboxes.Limits.{ControlBlock, InfoStorage, find}
use android_vendor_sobjectiz.Mboxes.Delivery.{
  Mbox, local, limitful_mpsc, EventQueue, not_set, throwing, lost, returned, thrown, Ending,
  null_dereference, push_exception, Deliver, Counts, ends, inc, set_count, uint_values, roll_back,
  guarded, dispatch_wrapper, and_then, push_event, try_to_deliver_to_agent, deliver_to_subscriber,
  deliver_to_all, service_of, local_delivery, wrapped, deliver_by, deliver,
}

not_pushed :
    (queue : ℕ → EventQueue) (inv : InvocationType) (a : ℕ) (l : Option ℕ) (box ty msg : ℕ)
    (c : Counts)
    → queue a ≡ not_set
    → push_event queue inv a l box ty msg c ≡ ends returned (lost a l ∷ []) c
unfolding push_event
not_pushed queue inv a l box ty msg c q = rw (q, push_event) refl

push_throws :
    (queue : ℕ → EventQueue) (inv : InvocationType) (a : ℕ) (l : Option ℕ) (box ty msg : ℕ)
    (c : Counts)
    → queue a ≡ throwing
    → push_event queue inv a l box ty msg c ≡ ends push_exception [] c
unfolding push_event
push_throws queue inv a l box ty msg c q = rw (q, push_event) refl

kept_returned :
    (inv : InvocationType) (l : Option ℕ) (c : Counts) (a : ℕ)
    → wrapped inv (guarded l (ends returned (lost a l ∷ []) c)) ≡ ends returned (lost a l ∷ []) c
unfolding wrapped guarded dispatch_wrapper
kept_returned event l c a = refl
kept_returned service_request l c a = refl

-- The only subscriber of a type.
alone :
    (priority : ℕ → ℕ) (a : ℕ)
    → elements (insert priority (subscription_info a none) empty_container)
      ≡ subscription_info a none ∷ []
unfolding insert insert_to_storage insert_to_vector lower_bound insert_at subscription_info
alone priority a = refl

subscribed :
    (priority : ℕ → ℕ) (a ty : ℕ)
    → subscribe_event_handler priority ty none a (λ u. none) ty
      ≡ some (insert priority (subscription_info a none) empty_container)
unfolding subscribe_event_handler insert_or_modify_subscriber
subscribed priority a ty = let here : (ty == ty) ≡ true = ground arith in rw here refl

module _ (queue : ℕ → EventQueue) (block : ℕ → ControlBlock) (check : ℕ → ℕ → ℕ → Bool)
    (self : Deliver) (box a ty msg deep : ℕ) (c : Counts) (q : queue a ≡ throwing) where
  unlimited_subscriber :
      (inv : InvocationType) (e : Ending)
      → deliver_to_subscriber queue block check self inv e box ty msg deep
          (subscription_info a none)
          c
        ≡ ends null_dereference [] c
  unfolding deliver_to_subscriber subscription_info delivery_possibility try_to_deliver_to_agent
      guarded roll_back
  unlimited_subscriber inv e = rw (push_throws queue inv a none box ty msg c q) refl

  unlimited_alone :
      (inv : InvocationType) (b : MessagesTable) (es : Container)
      → b ty ≡ some es
      → elements es ≡ subscription_info a none ∷ []
      → local_delivery queue block check self inv b box ty msg deep c ≡ ends null_dereference [] c
  unfolding local_delivery deliver_to_all service_of and_then dispatch_wrapper
  unlimited_alone event b es e one =
      rw (e, local_delivery) (rw one (rw (unlimited_subscriber event returned) refl))
  unlimited_alone service_request b es e one =
      rw (e, local_delivery)
        (rw one (rw (unlimited_subscriber service_request (thrown no_svc_handlers)) refl))

module _ (queue : ℕ → EventQueue) (block : ℕ → ControlBlock) (check : ℕ → ℕ → ℕ → Bool)
    (boxes : ℕ → Mbox) (n : ℕ) (inv : InvocationType) (box a ty msg deep : ℕ) (c : Counts) where
  -- A message or service request for an agent whose event queue is not set, through its mbox with
  -- limits, with a subscription and with room below the limit `k` of the type: the delivery returns,
  -- nothing is pushed, and the counter of the limit is one higher.
  pub lost-counted :
      (subscriptions k : ℕ) (limits : InfoStorage)
      → boxes box ≡ limitful_mpsc a subscriptions limits
      → find ty limits ≡ some k
      → subscriptions ≢ 0
      → queue a ≡ not_set
      → c k < (block k).limit
      → (block k).limit < uint_values
      → deliver queue block check boxes (suc n) inv box ty msg deep c
        ≡ ends returned (lost a (some k) ∷ []) (set_count k (c k + 1) c)
  unfolding deliver deliver_by try_to_deliver_to_agent wrapped
  lost-counted m k limits e e' pos q room small =
      let some_ : (m == 0) ≡ false = ground arith in
      let no_over : ltb (block k).limit (inc (c k)) ≡ false = ground arith in
      let up : inc (c k) ≡ c k + 1 = ground arith in
      rw (e, deliver_by)
        (rw (some_, e', try_to_deliver_to_agent)
          (rw (no_over, up)
            (rw (not_pushed queue inv a (some k) box ty msg (set_count k (c k + 1) c) q)
              (kept_returned inv (some k) (set_count k (c k + 1) c) a))))

  -- A message or service request for an agent that is the only subscriber of a local mbox and has no
  -- limit for the type and no filter, while its event queue throws on the push: the counter to take
  -- back is read through a null pointer.
  pub unlimited-throws :
      (priority : ℕ → ℕ)
      → boxes box ≡ local (subscribe_event_handler priority ty none a (λ u. none))
      → queue a ≡ throwing
      → deliver queue block check boxes (suc n) inv box ty msg deep c ≡ ends null_dereference [] c
  unfolding deliver deliver_by
  unlimited-throws priority e q =
      rw (e, deliver_by)
        (unlimited_alone queue block check (deliver queue block check boxes n) box a ty msg deep c q
          inv (subscribe_event_handler priority ty none a (λ u. none))
          (insert priority (subscription_info a none) empty_container) (subscribed priority a ty)
          (alone priority a))
