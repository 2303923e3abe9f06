-- ===== src/Mboxes/Delivery/Attempts.antt =====
-- The delivery to one agent with the reactions to its limit.
use android_vendor_sobjectiz.Common.{
  ℕ, ◌+◌, ◌<◌, ◌≡◌, refl, arith, inl, inr, Bool-cases, ltb, leb, Bool, Option, none, some, [], ◌∷◌,
  svc_request_cannot_be_transfomred_on_overlimit,
}
use android_vendor_sobjectiz.Mchain.Demand.{InvocationType, event, service_request}
use android_vendor_sobjectiz.Mboxes.Subscriber.{}
use android_vendor_sobjectiz.Mboxes.Limits.{
  Reaction, drop_message, abort_app, redirect, transform, ControlBlock,
}
use android_vendor_sobjectiz.Mboxes.Delivery.{
  EventQueue, not_set, ready, throwing, Effect, pushed, lost, returned, thrown, push_exception,
  aborted, Counts, inc, dec, set_count, uint_values, max_overlimit_reaction_deep, Deliver, guarded,
  push_event, redirect_reaction, transform_reaction, overlimit, try_to_deliver_to_agent,
}
use android_vendor_sobjectiz.Mboxes.Delivery.Accounts.{
  Fits, Accounts, nothing_taken, after-Accounts, guarded-none, same_counts, back-counted,
  kept-Accounts, back-Accounts,
}

module _ (queue : ℕ → EventQueue) (block : ℕ → ControlBlock) (check : ℕ → ℕ → ℕ → Bool) where
  pub push-Accounts :
      (inv : InvocationType) (a box ty msg : ℕ) (c : Counts)
      → Fits block c
      → Accounts block c (push_event queue inv a none box ty msg c)
  unfolding push_event
  push-Accounts inv a box ty msg c f = by_queue (queue a) refl
    where
      by_queue :
          (q : EventQueue)
          → queue a ≡ q
          → Accounts block c (push_event queue inv a none box ty msg c)
      by_queue not_set e =
          rw (e, push_event)
            (nothing_taken block returned (lost a none ∷ []) c f (λ k. refl) (λ h. cc))
      by_queue ready e =
          rw (e, push_event)
            (nothing_taken block returned (pushed inv a none box ty msg ∷ []) c f (λ k. refl)
              (λ h. cc))
      by_queue throwing e =
          rw (e, push_event) (nothing_taken block push_exception [] c f (λ k. refl) (λ h. cc))

  unlimited-Accounts :
      (inv : InvocationType) (a box ty msg : ℕ) (c : Counts)
      → Fits block c
      → Accounts block c (guarded none (push_event queue inv a none box ty msg c))
  unlimited-Accounts inv a box ty msg c f =
      guarded-none block c (push_event queue inv a none box ty msg c)
        (push-Accounts inv a box ty msg c f)

  module _ (k : ℕ) (c : Counts) (s : (block k).limit + 1 < uint_values) (r : c k < (block k).limit)
      (f : Fits block c) where
    limited-Accounts :
        (inv : InvocationType) (a box ty msg : ℕ)
        → Accounts block c (
            guarded
              (some k)
              (push_event queue inv a (some k) box ty msg (set_count k (inc (c k)) c)))
    unfolding push_event
    limited-Accounts inv a box ty msg = by_queue (queue a) refl
      where
        by_queue :
            (q : EventQueue)
            → queue a ≡ q
            → Accounts block c (
                guarded
                  (some k)
                  (push_event queue inv a (some k) box ty msg (set_count k (inc (c k)) c)))
        by_queue not_set e =
            rw (e, push_event)
              (kept-Accounts block k c s r f (lost a (some k) ∷ []) (λ j. omega arith))
        by_queue ready e =
            rw (e, push_event)
              (kept-Accounts block k c s r f (pushed inv a (some k) box ty msg ∷ [])
                (λ j. omega arith))
        by_queue throwing e = rw (e, push_event) (back-Accounts block k c s r f)

  module _ (small : (k : ℕ) → (block k).limit + 1 < uint_values) (self : Deliver) (deep : ℕ)
      (self-Accounts : deep < max_overlimit_reaction_deep
        → (inv : InvocationType) (box ty msg : ℕ) (c : Counts) → Fits block c
        → Accounts block c (self inv box ty msg (deep + 1) c)) where
    redirect-Accounts :
        (inv : InvocationType) (a to ty msg : ℕ) (c : Counts)
        → Fits block c
        → Accounts block c (redirect_reaction queue block check self inv a to ty msg deep c)
    unfolding redirect_reaction
    redirect-Accounts inv a to ty msg c f =
        elim (Bool-cases (leb max_overlimit_reaction_deep deep)) [
          | inl e ↦
              rw e (nothing_taken block returned (Effect.too_deep a ∷ []) c f (λ k. refl) (λ h. cc))
          | inr e ↦ rw e (
              after-Accounts block (Effect.redirecting a to ∷ []) c
                (self inv to ty msg (deep + 1) c) (λ k. refl)
                (self-Accounts (ground arith) inv to ty msg c f))
        ]

    transform-Accounts :
        (a to ty msg : ℕ) (c : Counts)
        → Fits block c
        → Accounts block c (transform_reaction queue block check self a to ty msg deep c)
    unfolding transform_reaction
    transform-Accounts a to ty msg c f = elim (Bool-cases (leb max_overlimit_reaction_deep deep)) [
      | inl e ↦
          rw e (nothing_taken block returned (Effect.too_deep a ∷ []) c f (λ k. refl) (λ h. cc))
      | inr e ↦ rw e (
          after-Accounts block (Effect.transforming a to ∷ []) c (self event to ty msg (deep + 1) c)
            (λ k. refl) (self-Accounts (ground arith) event to ty msg c f))
    ]

    overlimit-Accounts :
        (r : Reaction) (inv : InvocationType) (a ty msg : ℕ) (c : Counts)
        → Fits block c
        → Accounts block c (overlimit queue block check self r inv a ty msg deep c)
    unfolding overlimit
    overlimit-Accounts drop_message inv a ty msg c f =
        nothing_taken block returned (Effect.dropped a ∷ []) c f (λ k. refl) (λ h. cc)
    overlimit-Accounts abort_app inv a ty msg c f =
        nothing_taken block aborted (Effect.aborting a ∷ []) c f (λ k. refl) (λ h. cc)
    overlimit-Accounts (redirect to) inv a ty msg c f = redirect-Accounts inv a to ty msg c f
    overlimit-Accounts (transform ty' make) event a ty msg c f =
        transform-Accounts a (make msg).0 ty' (make msg).1 c f
    overlimit-Accounts (transform ty' make) service_request a ty msg c f =
        nothing_taken block (thrown svc_request_cannot_be_transfomred_on_overlimit) [] c f
          (λ k. refl) (λ h. cc)

    pub try-Accounts :
        (inv : InvocationType) (a : ℕ) (l : Option ℕ) (box ty msg : ℕ) (c : Counts)
        → Fits block c
        → Accounts block c
            (try_to_deliver_to_agent queue block check self inv a l box ty msg deep c)
    unfolding try_to_deliver_to_agent
    try-Accounts inv a none box ty msg c f = unlimited-Accounts inv a box ty msg c f
    try-Accounts inv a (some k) box ty msg c f =
        let room : c k + 1 < uint_values = omega (arith, f k, small k) in
        elim (Bool-cases (ltb (block k).limit (inc (c k)))) [
          | inl over ↦
              let c' : Counts = set_count k (dec (inc (c k))) (set_count k (inc (c k)) c) in
              let back : (j : ℕ) → c' j ≡ c j = λ j. back-counted block k j c room in
              rw over (
                same_counts block c c'
                  (overlimit queue block check self (block k).action inv a ty msg deep c') back
                  (overlimit-Accounts (block k).action inv a ty msg c' (λ j. rw (back j) (f j))))
          | inr under ↦ rw under (limited-Accounts k c (small k) (ground arith) f inv a box ty msg)
        ]
