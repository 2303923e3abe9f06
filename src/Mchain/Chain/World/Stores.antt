-- ===== src/Mchain/Chain/World/Stores.antt =====
-- mchain_template with its threads: every part of a store keeps the invariant.
use android_vendor_sobjectiz.Common.{
  ℕ, ◌≡◌, refl, sym, ap, ap₂, ◌∙◌, true, false, not, ◌&&◌, Option, none, some, List, [], ◌∷◌, ◌++◌,
  length, length-append, arith, inl, inr, Bool-cases,
}
use android_vendor_sobjectiz.Mchain.Demand.{
  Demand, Params, OverflowReaction, abort_app, throw_exception, drop_newest, remove_oldest,
}
use android_vendor_sobjectiz.Mchain.Queue.{QueueOps, QueueLaws, at_limit}
use android_vendor_sobjectiz.Mchain.Chain.{
  is_closed, wake_receivers, push_demand, react, store, store_resume,
}
use android_vendor_sobjectiz.Mchain.Chain.Outcomes.{Holds, push_demand_lem, remove_oldest_lem}
use android_vendor_sobjectiz.Mchain.Chain.World.{World, settle, stay, deliver, signal}
use android_vendor_sobjectiz.Mchain.Chain.World.Settle.{nothing, removed}
use android_vendor_sobjectiz.Mchain.Chain.World.Wakeups.{
  IsAwake, sender_sleeps-IsAwake, sender_leaves-IsAwake, aborted-IsAwake,
}
use android_vendor_sobjectiz.Mchain.Chain.World.Trace.{
  Moves-nil, Moves-overflow_drop_newest, Moves-overflow_throw_exception,
}
use android_vendor_sobjectiz.Mchain.Chain.World.Invariant.{
  Inv, Advance, Advance-still, Inv-grow, pushed,
}
use android_vendor_sobjectiz.Mchain.Chain.World.{
  sender_sleeps, sender_wakes_with, sender_times_out_with, take_nth,
}

take_nth-nil : (i : ℕ) {r : Demand × List Demand} → ¬ (take_nth i [] ≡ some r)
unfolding take_nth
take_nth-nil i e = cc

module _ {Q : Type 0} {ops : QueueOps Q} (laws : QueueLaws ops) (p : Params) where
  -- A part of an operation that leaves the world as it is.
  pub Advance-idle : (w : World Q) → Inv laws w → Advance laws w.chain.queue (w, [])
  Advance-idle w v =
      Advance-still laws w.chain.queue (w, []) v.valid v.bounded refl v.awake Moves-nil

  module _ (d : Demand) (w : World Q) (v : Inv laws w) where
    push-Advance :
        ops.is_full w.chain.queue ≡ false
        → Advance laws w.chain.queue (settle stay w (push_demand ops p d [] w.chain))
    push-Advance room =
        let (q, h, e) = push_demand_lem laws p d w.chain v.valid [] room in
        rw e (
          pushed laws p d nothing w q (laws.contents w.chain.queue) false (rw room at v.awake) h
            (Inv-grow laws _ _ v.bounded
              (rw room at (sym (laws.is_full_lem w.chain.queue v.valid))))
            refl (inl (refl, refl)))

    remove_oldest-Advance :
        (l : List Demand)
        → laws.contents w.chain.queue ≡ l
        → ops.is_full w.chain.queue ≡ true
        → Advance laws w.chain.queue (settle stay w (react ops p remove_oldest d w.chain))
    unfolding settle deliver react
    remove_oldest-Advance [] e full =
        rw (laws.front_empty w.chain.queue v.valid e, react) (Advance-idle w v)
    remove_oldest-Advance (x ∷ xs) e full =
        let bound = rw e at v.bounded in
        let (q, h, e') = remove_oldest_lem laws p d w.chain x xs v.valid e bound in
        rw e' (
          pushed laws p d (removed x) w q xs true (rw full at v.awake) h bound e
            (inr (still_full q h, ap length e)))
      where
        -- After the removal and the push the queue is as full as before.
        still_full : (q : Q) → Holds laws w.chain.queue (xs ++ d ∷ []) q → ops.is_full q ≡ true
        still_full q h =
            laws.is_full_lem q h.valid
            ∙ ap₂ at_limit h.same_limit
                (ap length h.items ∙ omega (arith, length-append xs (d ∷ [])) ∙ sym (ap length e))
            ∙ sym (laws.is_full_lem w.chain.queue v.valid)
            ∙ full

    react-Advance :
        (r : OverflowReaction)
        → ops.is_full w.chain.queue ≡ true
        → Advance laws w.chain.queue (settle stay w (react ops p r d w.chain))
    unfolding settle deliver signal react
    react-Advance drop_newest full =
        Advance-still laws w.chain.queue _ v.valid v.bounded refl v.awake Moves-overflow_drop_newest
    react-Advance remove_oldest full = remove_oldest-Advance (laws.contents w.chain.queue) refl full
    react-Advance throw_exception full =
        Advance-still laws w.chain.queue _ v.valid v.bounded refl v.awake
          Moves-overflow_throw_exception
    react-Advance abort_app full =
        Advance-still laws w.chain.queue _ v.valid v.bounded refl
          (aborted-IsAwake ops _ _ w v.awake) Moves-nil

    pub store_resume-Advance :
        Advance laws w.chain.queue (settle stay w (store_resume ops p d w.chain))
    unfolding store_resume
    store_resume-Advance = elim (Bool-cases (ops.is_full w.chain.queue)) [
      | inl full ↦ rw full (react-Advance p.overflow_reaction full)
      | inr room ↦ rw room (push-Advance room)
    ]

    -- Without a wait no thread goes to sleep.
    store_resume-stays :
        settle (sender_sleeps d) w (store_resume ops p d w.chain)
        ≡ settle stay w (store_resume ops p d w.chain)
    unfolding settle store_resume react push_demand wake_receivers
    store_resume-stays = ground arith

    sleep-Advance :
        is_closed w.chain.status ≡ false
        → ops.is_full w.chain.queue ≡ true
        → Advance laws w.chain.queue (sender_sleeps d w, [])
    sleep-Advance o full =
        Advance-still laws w.chain.queue (sender_sleeps d w, []) v.valid v.bounded refl
          (rw full (sender_sleeps-IsAwake ops _ d w.senders_notified w (rw full at v.awake) o))
          Moves-nil

    pub store-Advance :
        Advance laws w.chain.queue (settle (sender_sleeps d) w (store ops p d w.chain))
    unfolding store settle deliver
    store-Advance = elim (Bool-cases (is_closed w.chain.status)) [
      | inl closed ↦ rw (closed, store) (Advance-idle w v)
      | inr o ↦ elim (Bool-cases (ops.is_full w.chain.queue && p.overflow_timeout_defined)) [
        | inl waits ↦ rw (o, waits, store) (sleep-Advance o (ground arith))
        | inr now ↦ rw (o, now, store) (rw store_resume-stays store_resume-Advance)
      ]
    ]

  -- A notified sender, and one whose time is out.
  sender_out :
      (waiting notified : List Demand) (w : World Q)
      → Inv laws w
      → (w.senders_waiting ≡ [] → waiting ≡ [])
      → Inv laws (record w { senders_waiting = waiting; senders_notified = notified })
  sender_out waiting notified w v h = record {
    valid = v.valid;
    bounded = v.bounded;
    awake = sender_leaves-IsAwake ops _ _ waiting notified w v.awake h;
  }

  pub sender_wakes-Advance :
      (w : World Q) (o : Option (Demand × List Demand))
      → Inv laws w
      → Advance laws w.chain.queue (sender_wakes_with ops p w o)
  unfolding sender_wakes_with
  sender_wakes-Advance w none v = Advance-idle w v
  sender_wakes-Advance w (some (d, others)) v =
      elim (Bool-cases (ops.is_full w.chain.queue && not (is_closed w.chain.status))) [
        | inl again ↦ rw again (
            Advance-still laws w.chain.queue _ v.valid v.bounded refl
              (waits_again (ground arith) (ground arith)) Moves-nil)
        | inr leaves ↦ rw leaves (
            store_resume-Advance d (record w { senders_notified = others })
              (sender_out w.senders_waiting others w v (λ e. e)))
      ]
    where
      waits_again :
          ops.is_full w.chain.queue ≡ true
          → is_closed w.chain.status ≡ false
          → IsAwake
              (length (laws.contents w.chain.queue))
              (ops.is_full w.chain.queue)
              (sender_sleeps d (record w { senders_notified = others }))
      waits_again full o = rw full (sender_sleeps-IsAwake ops _ d others w (rw full at v.awake) o)

  pub sender_times_out-Advance :
      (w : World Q) (i : ℕ) (o : Option (Demand × List Demand))
      → take_nth i w.senders_waiting ≡ o
      → Inv laws w
      → Advance laws w.chain.queue (sender_times_out_with ops p w o)
  unfolding sender_times_out_with
  sender_times_out-Advance w i none e v = Advance-idle w v
  sender_times_out-Advance w i (some (d, others)) e v =
      store_resume-Advance d (record w { senders_waiting = others })
        (sender_out others w.senders_notified w v nobody)
    where
      nobody : w.senders_waiting ≡ [] → others ≡ []
      nobody n = let e' : take_nth i [] ≡ some (d, others) = rw n at e in absurd (take_nth-nil i e')
