-- ===== src/Mboxes/Single/Subscribed.antt =====
-- When a mbox with one consumer delivers.
use android_vendor_sobjectiz.Common.{
  ℕ, suc, ◌+◌, ◌-◌, ◌≡◌, refl, arith, inl, inr, Bool-cases, leb, ◌==◌, if◌then◌else◌, one_if, ◌≤◌,
  Bool, true, false, Option, none, List, [], ◌∷◌, RetCode,
}
use android_vendor_sobjectiz.Mchain.Demand.{event}
use android_vendor_sobjectiz.Mboxes.Single.{
  Single, subscribe_event_handler, unsubscribe_event_handlers, set_delivery_filter,
  drop_delivery_filter,
}
use android_vendor_sobjectiz.Mboxes.Limits.{ControlBlock}
use android_vendor_sobjectiz.Mboxes.Delivery.{
  Mbox, limitless_mpsc, EventQueue, ready, pushed, no_subscribers, returned, Counts, ends,
  push_event, wrapped, deliver_by, deliver,
}

-- A call of the mbox by an agent.
pub data SingleCall : Type 0 where
  subscribes unsubscribes filters unfilters : ℕ → SingleCall

abbrev pub call : SingleCall → Single → Single × Option RetCode
call (subscribes a) m = subscribe_event_handler a m
call (unsubscribes a) m = unsubscribe_event_handlers a m
call (filters a) m = set_delivery_filter a m
call (unfilters a) m = drop_delivery_filter a m

abbrev pub call_all : List SingleCall → Single → Single
call_all [] m = m
call_all (s ∷ ss) m = call_all ss (call s m).0

-- How often the agent `c` subscribes and unsubscribes.
abbrev pub subscribed : ℕ → List SingleCall → ℕ
subscribed c [] = 0
subscribed c (subscribes a ∷ ss) = one_if (a == c) + subscribed c ss
subscribed c (_ ∷ ss) = subscribed c ss

abbrev pub unsubscribed : ℕ → List SingleCall → ℕ
unsubscribed c [] = 0
unsubscribed c (unsubscribes a ∷ ss) = one_if (a == c) + unsubscribed c ss
unsubscribed c (_ ∷ ss) = unsubscribed c ss

-- It never drops a subscription that it has not, with `n` at the start.
abbrev pub AreBalanced : ℕ → List SingleCall → ℕ → Type 0
AreBalanced c [] n = Unit
AreBalanced c (subscribes a ∷ ss) n = AreBalanced c ss (n + one_if (a == c))
AreBalanced c (unsubscribes a ∷ ss) n =
    (one_if (a == c) ≤ n) × AreBalanced c ss (n - one_if (a == c))
AreBalanced c (filters a ∷ ss) n = AreBalanced c ss n
AreBalanced c (unfilters a ∷ ss) n = AreBalanced c ss n

abbrev held_by : ℕ → ℕ → Single
held_by c n = record { single_consumer = c; subscriptions_count = n }

on_subscribe :
    (c a n : ℕ) → (subscribe_event_handler a (held_by c n)).0 ≡ held_by c (n + one_if (a == c))
unfolding subscribe_event_handler
on_subscribe c a n = ground arith

on_unsubscribe :
    (c a n : ℕ) → (unsubscribe_event_handlers a (held_by c n)).0 ≡ held_by c (n - one_if (a == c))
unfolding unsubscribe_event_handlers
on_unsubscribe c a n = ground arith

-- What the mbox holds after the calls of all agents.
record Holds (c n : ℕ) (ss : List SingleCall) (m : Single) : Type 0 where
  pub same_consumer : m.single_consumer ≡ c
  pub balance : m.subscriptions_count + unsubscribed c ss ≡ n + subscribed c ss

call_all-Holds :
    (c n : ℕ) (ss : List SingleCall) → AreBalanced c ss n → Holds c n ss (call_all ss (held_by c n))
unfolding set_delivery_filter drop_delivery_filter
call_all-Holds c n [] b = record { same_consumer = refl; balance = refl }
call_all-Holds c n (subscribes a ∷ ss) b =
    let h = call_all-Holds c (n + one_if (a == c)) ss b in
    rw (on_subscribe c a n)
      (record { same_consumer = h.same_consumer; balance = omega (arith, h.balance) })
call_all-Holds c n (unsubscribes a ∷ ss) b =
    let h = call_all-Holds c (n - one_if (a == c)) ss b.1 in
    rw (on_unsubscribe c a n)
      (record { same_consumer = h.same_consumer; balance = omega (arith, h.balance, b.0) })
call_all-Holds c n (filters a ∷ ss) b =
    let h = call_all-Holds c n ss b in
    record { same_consumer = h.same_consumer; balance = h.balance }
call_all-Holds c n (unfilters a ∷ ss) b =
    let h = call_all-Holds c n ss b in
    record { same_consumer = h.same_consumer; balance = h.balance }

pushes :
    (queue : ℕ → EventQueue) (c box ty msg : ℕ) (k : Counts)
    → queue c ≡ ready
    → push_event queue event c none box ty msg k
      ≡ ends returned (pushed event c none box ty msg ∷ []) k
unfolding push_event
pushes queue c box ty msg k q = rw (q, push_event) refl

-- A message that is sent to a mbox with one consumer and without limits, after any calls of it by any
-- agents in which the consumer never drops a subscription that it has not, if the queue of the consumer
-- takes demands: the consumer gets the message exactly if it has subscribed more often than it has
-- unsubscribed, whatever the types of these subscriptions and whatever other agents have tried, and
-- otherwise the delivery says that there are no subscribers; no counter changes.
pub deliver-single :
    (queue : ℕ → EventQueue) (block : ℕ → ControlBlock) (check : ℕ → ℕ → ℕ → Bool)
    (boxes : ℕ → Mbox) (n box ty msg deep : ℕ) (k : Counts) (c : ℕ) (ss : List SingleCall)
    → boxes box
      ≡ limitless_mpsc
          (call_all ss (record { single_consumer = c; subscriptions_count = 0 })).single_consumer
          (call_all ss
            (record { single_consumer = c; subscriptions_count = 0 })).subscriptions_count
    → AreBalanced c ss 0
    → queue c ≡ ready
    → deliver queue block check boxes (suc n) event box ty msg deep k
      ≡ ends returned
          ((if leb (subscribed c ss) (unsubscribed c ss)
              then no_subscribers box
              else pushed event c none box ty msg)
            ∷ [])
          k
unfolding deliver deliver_by wrapped
deliver-single queue block check boxes n box ty msg deep k c ss e b q =
    let h = call_all-Holds c 0 ss b in
    let count = (call_all ss (held_by c 0)).subscriptions_count in
    elim (Bool-cases (leb (subscribed c ss) (unsubscribed c ss))) [
      | inl none_ ↦
          let zero_ : (count == 0) ≡ true = ground (arith, h.balance, none_) in
          rw (e, deliver_by) (rw (zero_, none_) refl)
      | inr some_ ↦
          let more : (count == 0) ≡ false = ground (arith, h.balance, some_) in
          rw (e, deliver_by) (rw (more, some_) (rw h.same_consumer (pushes queue c box ty msg k q)))
    ]
