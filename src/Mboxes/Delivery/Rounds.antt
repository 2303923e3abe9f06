-- ===== src/Mboxes/Delivery/Rounds.antt =====
-- A delivery with all the reactions that it leads to.
use android_vendor_sobjectiz.Common.{
  ℕ, zero, suc, ◌+◌, ◌<◌, ◌≡◌, ◌≢◌, refl, arith, inl, inr, Bool-cases, ◌==◌, Bool, Option, none,
  some, List, [], ◌∷◌, no_svc_handlers, more_than_one_svc_handler,
}
use android_vendor_sobjectiz.Mchain.Demand.{InvocationType, event, service_request}
use android_vendor_sobjectiz.Mboxes.Subscriber.{
  SubscriberInfo, DeliveryPossibility, must_be_delivered, no_subscription,
  disabled_by_delivery_filter, delivery_possibility,
}
use android_vendor_sobjectiz.Mboxes.Container.{Container, elements}
use android_vendor_sobjectiz.Mboxes.Local.{MessagesTable}
use android_vendor_sobjectiz.Mboxes.Limits.{ControlBlock, find}
use android_vendor_sobjectiz.Mboxes.Delivery.{
  Mbox, local, limitless_mpsc, limitful_mpsc, EventQueue, Effect, Ending, returned, thrown,
  null_dereference, out_of_fuel, Counts, ends, uint_values, max_overlimit_reaction_deep, Deliver,
  push_event, try_to_deliver_to_agent, deliver_to_subscriber, deliver_to_all, service_of,
  local_delivery, deliver_by, deliver,
}
use android_vendor_sobjectiz.Mboxes.Delivery.Accounts.{
  Fits, Accounts, nothing_taken, wrapper-Accounts, and_then-Accounts, wrapped-Accounts,
}
use android_vendor_sobjectiz.Mboxes.Delivery.Attempts.{push-Accounts, try-Accounts}

module _ (queue : ℕ → EventQueue) (block : ℕ → ControlBlock) (check : ℕ → ℕ → ℕ → Bool) where
  module _ (small : (k : ℕ) → (block k).limit + 1 < uint_values) (self : Deliver) (deep : ℕ)
      (self-Accounts : deep < max_overlimit_reaction_deep
        → (inv : InvocationType) (box ty msg : ℕ) (c : Counts) → Fits block c
        → Accounts block c (self inv box ty msg (deep + 1) c)) where
    subscriber-Accounts :
        (inv : InvocationType) (e : Ending) (box ty msg : ℕ) (i : SubscriberInfo) (c : Counts)
        → e ≢ out_of_fuel
        → Fits block c
        → Accounts block c (deliver_to_subscriber queue block check self inv e box ty msg deep i c)
    unfolding deliver_to_subscriber
    subscriber-Accounts inv e box ty msg i c g f =
        by_filter (delivery_possibility (λ h. check h i.agent msg) i) refl
      where
        by_filter :
            (o : Option DeliveryPossibility)
            → delivery_possibility (λ h. check h i.agent msg) i ≡ o
            → Accounts block c
                (deliver_to_subscriber queue block check self inv e box ty msg deep i c)
        by_filter none h =
            rw (h, deliver_to_subscriber)
              (nothing_taken block null_dereference [] c f (λ k. refl) (λ q. cc))
        by_filter (some must_be_delivered) h =
            rw (h, deliver_to_subscriber)
              (try-Accounts queue block check small self deep self-Accounts inv i.agent i.limit box
                ty msg c f)
        by_filter (some no_subscription) h =
            rw (h, deliver_to_subscriber)
              (nothing_taken block e (Effect.rejected i.agent no_subscription ∷ []) c f (λ k. refl)
                g)
        by_filter (some disabled_by_delivery_filter) h =
            rw (h, deliver_to_subscriber)
              (nothing_taken block e (Effect.rejected i.agent disabled_by_delivery_filter ∷ []) c f
                (λ k. refl) g)

    all-Accounts :
        (box ty msg : ℕ) (es : List SubscriberInfo) (c : Counts)
        → Fits block c
        → Accounts block c (deliver_to_all queue block check self box ty msg deep es c)
    unfolding deliver_to_all
    all-Accounts box ty msg [] c f = nothing_taken block returned [] c f (λ k. refl) (λ h. cc)
    all-Accounts box ty msg (i ∷ es) c f =
        and_then-Accounts block c
          (deliver_to_subscriber queue block check self event returned box ty msg deep i c)
          (deliver_to_all queue block check self box ty msg deep es)
          (subscriber-Accounts event returned box ty msg i c (λ h. cc) f)
          (λ c' f'. all-Accounts box ty msg es c' f')

    service-Accounts :
        (box ty msg : ℕ) (es : List SubscriberInfo) (c : Counts)
        → Fits block c
        → Accounts block c (service_of queue block check self box ty msg deep es c)
    unfolding service_of
    service-Accounts box ty msg (i ∷ []) c f =
        subscriber-Accounts service_request (thrown no_svc_handlers) box ty msg i c (λ h. cc) f
    service-Accounts box ty msg [] c f =
        nothing_taken block (thrown more_than_one_svc_handler) [] c f (λ k. refl) (λ h. cc)
    service-Accounts box ty msg (i ∷ j ∷ es) c f =
        nothing_taken block (thrown more_than_one_svc_handler) [] c f (λ k. refl) (λ h. cc)

    local-Accounts :
        (inv : InvocationType) (b : MessagesTable) (box ty msg : ℕ) (c : Counts)
        → Fits block c
        → Accounts block c (local_delivery queue block check self inv b box ty msg deep c)
    unfolding local_delivery
    local-Accounts event b box ty msg c f = by_type (b ty) refl
      where
        by_type :
            (o : Option Container)
            → b ty ≡ o
            → Accounts block c (local_delivery queue block check self event b box ty msg deep c)
        by_type none e =
            rw (e, local_delivery)
              (nothing_taken block returned (Effect.no_subscribers box ∷ []) c f (λ k. refl)
                (λ h. cc))
        by_type (some es) e = rw (e, local_delivery) (all-Accounts box ty msg (elements es) c f)
    local-Accounts service_request b box ty msg c f = by_type (b ty) refl
      where
        by_type :
            (o : Option Container)
            → b ty ≡ o
            → Accounts block c
                (local_delivery queue block check self service_request b box ty msg deep c)
        by_type none e =
            rw (e, local_delivery)
              (wrapper-Accounts block c
                (ends (thrown no_svc_handlers) (Effect.no_subscribers box ∷ []) c)
                (nothing_taken block (thrown no_svc_handlers) (Effect.no_subscribers box ∷ []) c f
                  (λ k. refl) (λ h. cc)))
        by_type (some es) e =
            rw (e, local_delivery)
              (wrapper-Accounts block c
                (service_of queue block check self box ty msg deep (elements es) c)
                (service-Accounts box ty msg (elements es) c f))

    box-Accounts :
        (m : Mbox) (inv : InvocationType) (box ty msg : ℕ) (c : Counts)
        → Fits block c
        → Accounts block c (deliver_by queue block check self m inv box ty msg deep c)
    unfolding deliver_by
    box-Accounts (local b) inv box ty msg c f = local-Accounts inv b box ty msg c f
    box-Accounts (limitless_mpsc a n) inv box ty msg c f = elim (Bool-cases (n == 0)) [
      | inl e ↦
          rw e (
            nothing_taken block returned (Effect.no_subscribers box ∷ []) c f (λ k. refl) (λ h. cc))
      | inr e ↦ rw e (
          wrapped-Accounts block inv c (push_event queue inv a none box ty msg c)
            (push-Accounts queue block check inv a box ty msg c f))
    ]
    box-Accounts (limitful_mpsc a n limits) inv box ty msg c f = elim (Bool-cases (n == 0)) [
      | inl e ↦
          rw e (
            nothing_taken block returned (Effect.no_subscribers box ∷ []) c f (λ k. refl) (λ h. cc))
      | inr e ↦ rw e (
          wrapped-Accounts block inv c
            (try_to_deliver_to_agent queue block check self inv a (find ty limits) box ty msg deep
              c)
            (try-Accounts queue block check small self deep self-Accounts inv a (find ty limits) box
              ty msg c f))
    ]

  -- Through any mboxes, however their limits redirect to each other and also in circles, with limits
  -- below 2 ^ 32 - 1 and no counter above its limit: a delivery at depth `deep` comes to an end on any
  -- fuel `n` of at least one with 32 < n + deep; each counter has then risen by the demands pushed with
  -- that limit and those for an agent without a queue, whatever was thrown, dropped, redirected or
  -- transformed, and none is above its limit.
  pub deliver-Accounts :
      (boxes : ℕ → Mbox) (n : ℕ) (inv : InvocationType) (box ty msg deep : ℕ) (c : Counts)
      → ((k : ℕ) → (block k).limit + 1 < uint_values)
      → 0 < n
      → max_overlimit_reaction_deep < n + deep
      → Fits block c
      → Accounts block c (deliver queue block check boxes n inv box ty msg deep c)
  unfolding deliver
  deliver-Accounts boxes zero inv box ty msg deep c small pos enough f = absurd (omega arith)
  deliver-Accounts boxes (suc n) inv box ty msg deep c small pos enough f =
      box-Accounts small (deliver queue block check boxes n) deep
        (λ lt inv' box' ty' msg' c' f'.
          deliver-Accounts boxes n inv' box' ty' msg' (deep + 1) c' small (omega arith)
            (omega arith) f')
        (boxes box) inv box ty msg c f
