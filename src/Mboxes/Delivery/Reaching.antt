-- ===== src/Mboxes/Delivery/Reaching.antt =====
-- Which agents a message in a local mbox reaches.
use android_vendor_sobjectiz.Common.{
  ℕ, suc, ◌+◌, ◌≡◌, refl, sym, arith, inl, inr, Bool-cases, ◌==◌, one_if, if◌then◌else◌, Bool, true,
  false, Option, none, some, List, [], ◌∷◌, ap,
}
use android_vendor_sobjectiz.Mchain.Demand.{event}
use android_vendor_sobjectiz.Mboxes.Subscriber.{
  SubscriberInfo, must_be_delivered, SubscriberState, only_subscriptions, only_filter,
  subscriptions_and_filter, no_subscription, disabled_by_delivery_filter, delivery_possibility,
}
use android_vendor_sobjectiz.Mboxes.Container.{Container, elements}
use android_vendor_sobjectiz.Mboxes.Container.Order.{lookup, IsSorted, AllAfter-lookup}
use android_vendor_sobjectiz.Mboxes.Local.{MessagesTable}
use android_vendor_sobjectiz.Mboxes.Local.Interests.{
  Interest, uninterested, info_of, Request, requests, noted_all, AreAllowed,
}
use android_vendor_sobjectiz.Mboxes.Local.Entries.{entry_in, Holds}
use android_vendor_sobjectiz.Mboxes.Local.Refinement.{requests-Refines, entry_of}
use android_vendor_sobjectiz.Mboxes.Limits.{ControlBlock}
use android_vendor_sobjectiz.Mboxes.Delivery.{
  Mbox, local, EventQueue, ready, Effect, pushed, rejected, returned, Counts, Done, ends, after,
  Deliver, guarded, and_then, push_event, try_to_deliver_to_agent, deliver_to_subscriber,
  deliver_to_all, local_delivery, deliver_by, deliver,
}

-- How many demands an agent gets.
abbrev pub reach : ℕ → Effect → ℕ
reach a (pushed inv b l box ty msg) = one_if (b == a)
reach a _ = 0

abbrev pub reached : ℕ → List Effect → ℕ
reached a [] = 0
reached a (e ∷ es) = reach a e + reached a es

-- An agent wants what its filter, if any, lets pass, once it is subscribed.
abbrev pub wants : (ℕ → Bool) → Interest → Bool
wants check n = elim n.subscription [
  | none ↦ false
  | some l ↦ elim n.filter [ none ↦ true | some f ↦ check f ]
]

abbrev pub expected : Option SubscriberInfo → Bool → ℕ
expected none w = 0
expected (some i) w = one_if w

-- A subscription without a limit.
abbrev pub IsUnlimited : Option (Option ℕ) → Type 0
IsUnlimited none = Unit
IsUnlimited (some l) = l ≡ none

module _ (queue : ℕ → EventQueue) (block : ℕ → ControlBlock) (check : ℕ → ℕ → ℕ → Bool)
    (open_ : (a : ℕ) → queue a ≡ ready) where
  ready_push :
      (a box ty msg : ℕ) (c : Counts)
      → guarded none (push_event queue event a none box ty msg c)
        ≡ ends returned (pushed event a none box ty msg ∷ []) c
  unfolding push_event guarded
  ready_push a box ty msg c = rw (open_ a, push_event) refl

  module _ (self : Deliver) (box ty msg deep : ℕ) (c : Counts) where
    abbrev info : ℕ → Option ℕ → Option ℕ → SubscriberState → SubscriberInfo
    info a l f s = record { agent = a; limit = l; filter = f; state = s }

    -- What comes of one subscriber: one effect, that reaches the agent if it wants the message.
    record Visits (a : ℕ) (w : Bool) (d : Done) : Type 0 where
      pub effect : Effect
      pub one : d ≡ ends returned (effect ∷ []) c
      pub reaches : (b : ℕ) → reach b effect ≡ (if a == b then one_if w else 0)

    visit_pushed :
        (a : ℕ)
        → Visits a true
            (try_to_deliver_to_agent queue block check self event a none box ty msg deep c)
    unfolding try_to_deliver_to_agent
    visit_pushed a = record {
      effect = pushed event a none box ty msg;
      one = ready_push a box ty msg c;
      reaches = λ b. ground arith;
    }

    possible :
        (a f : ℕ) (w : Bool)
        → check f a msg ≡ w
        → delivery_possibility (λ g. check g a msg) (info a none (some f) subscriptions_and_filter)
          ≡ some (if w then must_be_delivered else disabled_by_delivery_filter)
    unfolding delivery_possibility
    possible a f w h = rw h refl

    filtered_visit :
        (a f : ℕ) (w : Bool)
        → check f a msg ≡ w
        → Visits a w (
            deliver_to_subscriber queue block check self event returned box ty msg deep
              (info a none (some f) subscriptions_and_filter)
              c)
    unfolding deliver_to_subscriber
    filtered_visit a f true h = rw (possible a f true h, deliver_to_subscriber) (visit_pushed a)
    filtered_visit a f false h =
        rw (possible a f false h, deliver_to_subscriber)
          (record {
            effect = rejected a disabled_by_delivery_filter;
            one = refl;
            reaches = λ b. ground arith;
          })

    deliver_to_subscriber-Visits :
        (a : ℕ) (s : Option (Option ℕ)) (f : Option ℕ) (i : SubscriberInfo)
        → info_of a s f ≡ some i
        → IsUnlimited s
        → Visits a
            (wants (λ g. check g a msg) (record { subscription = s; filter = f }))
            (deliver_to_subscriber queue block check self event returned box ty msg deep i c)
    unfolding deliver_to_subscriber delivery_possibility try_to_deliver_to_agent
    deliver_to_subscriber-Visits a none none i e u = cc
    deliver_to_subscriber-Visits a (some l) none i e u =
        let is_i : info a l none only_subscriptions ≡ i = cc in
        rw (sym is_i) (rw u (visit_pushed a))
    deliver_to_subscriber-Visits a none (some f) i e u =
        let is_i : info a none (some f) only_filter ≡ i = cc in
        rw (sym is_i)
          (record { effect = rejected a no_subscription; one = refl; reaches = λ b. ground arith })
    deliver_to_subscriber-Visits a (some l) (some f) i e u =
        let is_i : info a l (some f) subscriptions_and_filter ≡ i = cc in
        rw (sym is_i) (rw u (filtered_visit a f (check f a msg) refl))

    -- What comes of all subscribers in order, with an interest for each agent.
    record Reaches (s : ℕ → Interest) (es : List SubscriberInfo) (d : Done) : Type 0 where
      pub all_ : d ≡ ends returned d.effects c
      pub each :
          (a : ℕ) → reached a d.effects ≡ expected (lookup a es) (wants (λ g. check g a msg) (s a))

    visited :
        (s : ℕ → Interest) (i : SubscriberInfo) (es : List SubscriberInfo) (d d' : Done)
        → lookup i.agent es ≡ none
        → Visits i.agent (wants (λ g. check g i.agent msg) (s i.agent)) d
        → Reaches s es d'
        → Reaches s (i ∷ es) (after d.effects d')
    visited s i es d d' gone v r = record {
      all_ = rw v.one (ap (after (v.effect ∷ [])) r.all_);
      each = λ a. rw v.one (elim (Bool-cases (i.agent == a)) [
        | inl same ↦
            let is_a : i.agent ≡ a = ground arith in
            let mine : one_if (wants (λ g. check g i.agent msg) (s i.agent))
                ≡ one_if (wants (λ g. check g a msg) (s a)) =
              ap (λ b. one_if (wants (λ g. check g b msg) (s b))) is_a in
            let rest : reached a d'.effects ≡ 0 = rw (r.each a) (rw (sym is_a) (rw gone refl)) in
            ground (arith, v.reaches a, mine, rest, same)
        | inr other ↦ ground (arith, v.reaches a, r.each a, other)
      ]);
    }

    deliver_to_all-Reaches :
        (s : ℕ → Interest) (priority : ℕ → ℕ) (es : List SubscriberInfo)
        → IsSorted priority es
        → ((a : ℕ) (i : SubscriberInfo) → lookup a es ≡ some i → entry_of a (s a) ≡ some i)
        → ((a : ℕ) → IsUnlimited (s a).subscription)
        → Reaches s es (deliver_to_all queue block check self box ty msg deep es c)
    unfolding deliver_to_all and_then
    deliver_to_all-Reaches s priority [] k h u = record { all_ = refl; each = λ a. refl }
    deliver_to_all-Reaches s priority (i ∷ es) k h u =
        let n = s i.agent in
        let here : (i.agent == i.agent) ≡ true = ground arith in
        let gone = AllAfter-lookup priority i.agent es k.0 in
        let d = deliver_to_subscriber queue block check self event returned box ty msg deep i c in
        let v =
          deliver_to_subscriber-Visits i.agent n.subscription n.filter i
            (h i.agent i (rw here refl)) (u i.agent) in
        let r =
          deliver_to_all-Reaches s priority es k.1 (λ a j e. h a j (ground (arith, e, gone))) u in
        rw v.one (
          visited s i es (ends returned (v.effect ∷ []) c)
            (deliver_to_all queue block check self box ty msg deep es c) gone
            (record { effect = v.effect; one = refl; reaches = v.reaches }) r)

  interested :
      (m : ℕ → Bool) (a : ℕ) (n : Interest)
      → expected (entry_of a n) (wants m n) ≡ one_if (wants m n)
  interested m a n = by_fields n.subscription n.filter
    where
      by_fields :
          (s : Option (Option ℕ)) (f : Option ℕ)
          → expected (info_of a s f) (wants m (record { subscription = s; filter = f }))
            ≡ one_if (wants m (record { subscription = s; filter = f }))
      by_fields none none = refl
      by_fields none (some f) = refl
      by_fields (some l) none = refl
      by_fields (some l) (some f) = refl

  abbrev Reached : (ℕ → Interest) → ℕ → Counts → Done → Type 0
  Reached s msg c d =
      (d ≡ ends returned d.effects c)
      × ((a : ℕ) → reached a d.effects ≡ one_if (wants (λ f. check f a msg) (s a)))

  local-Reached :
      (self : Deliver) (box ty msg deep : ℕ) (c : Counts) (s : ℕ → Interest) (priority : ℕ → ℕ)
      (b : MessagesTable) (o : Option Container)
      → b ty ≡ o
      → Holds priority o
      → ((a : ℕ) → entry_in o a ≡ entry_of a (s a))
      → ((a : ℕ) → IsUnlimited (s a).subscription)
      → Reached s msg c (local_delivery queue block check self event b box ty msg deep c)
  unfolding local_delivery
  local-Reached self box ty msg deep c s priority b none e k h u =
      rw (e, local_delivery)
        (refl, λ a. rw (sym (interested (λ f. check f a msg) a (s a))) (rw (sym (h a)) refl))
  local-Reached self box ty msg deep c s priority b (some es) e k h u =
      let r =
        deliver_to_all-Reaches self box ty msg deep c s priority (elements es) k.0.sorted
          (λ a i l. rw (sym (h a)) l) u in
      rw (e, local_delivery)
        (r.all_, λ a. rw (r.each a) (rw (h a) (interested (λ f. check f a msg) a (s a))))

  -- A message that is sent to a local mbox after any sequence of calls of it in which no agent
  -- subscribes to a type for which it is subscribed and has no filter, and none sets a filter for a type
  -- for which it has a filter and is not subscribed, if the subscriptions to the type have no limits and
  -- all event queues take demands: the delivery returns, no counter changes, and each agent gets exactly
  -- one demand if it is subscribed to the type and its filter for the type, if any, lets the message
  -- pass, and none otherwise.
  pub deliver-reaches :
      (boxes : ℕ → Mbox) (n box ty msg deep : ℕ) (c : Counts) (priority : ℕ → ℕ) (rs : List Request)
      → boxes box ≡ local (requests priority rs (λ t. none))
      → AreAllowed rs uninterested
      → ((a : ℕ) → IsUnlimited (noted_all rs uninterested ty a).subscription)
      → let d = deliver queue block check boxes (suc n) event box ty msg deep c in
        (d ≡ ends returned d.effects c)
        × ((a : ℕ)
            → reached a d.effects
              ≡ one_if (wants (λ f. check f a msg) (noted_all rs uninterested ty a)))
  unfolding deliver deliver_by
  deliver-reaches boxes n box ty msg deep c priority rs e h u =
      let k = requests-Refines priority rs h in
      rw (e, deliver_by)
        (local-Reached (deliver queue block check boxes n) box ty msg deep c
          (noted_all rs uninterested ty) priority (requests priority rs (λ t. none))
          (requests priority rs (λ t. none) ty) refl (k.kept ty) (k.entries_are ty) u)
