-- ===== src/Mchain/Chain/World/Extracts.antt =====
-- mchain_template with its threads: every part of an extraction, the close and the select operations
-- keep the invariant.
use android_vendor_sobjectiz.Common.{
  ℕ, zero, suc, ◌≡◌, ◌+◌, refl, ◌∙◌, true, false, not, ◌&&◌, Option, none, some, List, [], ◌∷◌,
  append-nil, length, is_nil, arith, inl, inr, Bool-cases, ◌⊎◌, dec_size,
}
use android_vendor_sobjectiz.Mchain.Demand.{Demand, Params, msg_extracted, ExtractionStatus}
use android_vendor_sobjectiz.Mchain.Queue.{QueueOps, QueueLaws}
use android_vendor_sobjectiz.Mchain.Chain.{
  Chain, is_closed, extract, extract_resume, extract_demand_from_not_empty_queue,
  extract_for_select, remove_from_select, unlink,
}
use android_vendor_sobjectiz.Mchain.Chain.Outcomes.{IsBounded, extract_lem}
use android_vendor_sobjectiz.Mchain.Chain.World.{World, settle, stay, deliver}
use android_vendor_sobjectiz.Mchain.Chain.World.Wakeups.{
  extracted-IsAwake, receiver_resumes-IsAwake, receiver_leaves-IsAwake, receiver_sleeps-IsAwake,
  receiver_waits_again-IsAwake, selects-IsAwake, unselects-IsAwake,
}
use android_vendor_sobjectiz.Mchain.Chain.World.Trace.{Moves-nil, Moves-extracted}
use android_vendor_sobjectiz.Mchain.Chain.World.Invariant.{
  Inv, Advance, Advance-of, Advance-still, settle-queue, settle-trace,
}
use android_vendor_sobjectiz.Mchain.Chain.World.Stores.{Advance-idle}
use android_vendor_sobjectiz.Mchain.Chain.World.{
  receiver_sleeps, receiver_wakes_with, receiver_times_out_with,
}

module _ {Q : Type 0} {ops : QueueOps Q} (laws : QueueLaws ops) (p : Params) where
  module _ (w : World Q) (v : Inv laws w) where
    -- The limit leaves room for fewer demands.
    fewer : (k : Option ℕ) (n : ℕ) → IsBounded k (suc n) → IsBounded k n
    fewer none n b = tt
    fewer (some m) n b = omega arith

    extract_now-Advance :
        (x : Demand) (xs : List Demand)
        → laws.contents w.chain.queue ≡ x ∷ xs
        → Advance laws w.chain.queue
            (settle stay w (extract_demand_from_not_empty_queue ops w.chain))
    extract_now-Advance x xs e =
        let (q, h, e') = extract_lem laws w.chain x xs v.valid e in
        let bound = rw e at v.bounded in
        rw e' (
          Advance-of laws w.chain.queue q xs [] (x ∷ []) _ (settle-queue _ _ _ w) h
            (fewer _ _ bound)
            (extracted-IsAwake ops {R = ExtractionStatus × Option Demand} (msg_extracted, some x)
              (length xs) (ops.is_full w.chain.queue) (ops.is_full q) x w q (rw e at v.awake))
            (settle-trace _ _ _ w (Moves-extracted x (ops.is_full w.chain.queue)))
            (append-nil _ ∙ e))

    -- With a demand at hand no thread goes to sleep.
    extract_now-stays :
        settle receiver_sleeps w (extract_demand_from_not_empty_queue ops w.chain)
        ≡ settle stay w (extract_demand_from_not_empty_queue ops w.chain)
    unfolding settle extract_demand_from_not_empty_queue
    extract_now-stays = ground arith

    sleep-Advance :
        laws.contents w.chain.queue ≡ []
        → is_closed w.chain.status ≡ false
        → Advance laws w.chain.queue (
          receiver_sleeps (record w {
            chain = record w.chain { threads_to_wakeup = w.chain.threads_to_wakeup + 1 };
          }),
          [],
        )
    sleep-Advance e o =
        Advance-still laws w.chain.queue _ v.valid v.bounded refl
          (rw e (receiver_sleeps-IsAwake ops _ w (rw e at v.awake) o)) Moves-nil

    extract_from :
        (l : List Demand)
        → laws.contents w.chain.queue ≡ l
        → Advance laws w.chain.queue (settle receiver_sleeps w (extract ops w.chain))
    unfolding extract settle deliver
    extract_from [] e = elim (Bool-cases (is_closed w.chain.status)) [
      | inl closed ↦
          rw (laws.is_empty_lem w.chain.queue v.valid, e, closed, extract) (Advance-idle laws p w v)
      | inr o ↦ rw (laws.is_empty_lem w.chain.queue v.valid, e, o, extract) (sleep-Advance e o)
    ]
    extract_from (x ∷ xs) e =
        rw (laws.is_empty_lem w.chain.queue v.valid, e, extract)
          (rw extract_now-stays (extract_now-Advance x xs e))

    pub extract-Advance :
        Advance laws w.chain.queue (settle receiver_sleeps w (extract ops w.chain))
    extract-Advance = extract_from (laws.contents w.chain.queue) refl

    select_from :
        (s : ℕ) (l : List Demand)
        → laws.contents w.chain.queue ≡ l
        → Advance laws w.chain.queue (settle stay w (extract_for_select ops s w.chain))
    unfolding extract_for_select settle deliver
    select_from s [] e = elim (Bool-cases (is_closed w.chain.status)) [
      | inl closed ↦
          rw (laws.is_empty_lem w.chain.queue v.valid, e, closed, extract_for_select)
            (Advance-idle laws p w v)
      | inr o ↦
          rw (laws.is_empty_lem w.chain.queue v.valid, e, o, extract_for_select)
            (Advance-still laws w.chain.queue _ v.valid v.bounded refl
              (rw e (selects-IsAwake ops _ (s ∷ w.chain.select_tail) w (rw e at v.awake) o))
              Moves-nil)
    ]
    select_from s (x ∷ xs) e =
        rw (laws.is_empty_lem w.chain.queue v.valid, e, extract_for_select)
          (extract_now-Advance x xs e)

    pub select-Advance :
        (s : ℕ) → Advance laws w.chain.queue (settle stay w (extract_for_select ops s w.chain))
    select-Advance s = select_from s (laws.contents w.chain.queue) refl

    pub unselect-Advance :
        (s : ℕ) → Advance laws w.chain.queue (record w { chain = remove_from_select s w.chain }, [])
    unfolding remove_from_select
    unselect-Advance s =
        Advance-still laws w.chain.queue _ v.valid v.bounded refl
          (unselects-IsAwake ops _ _ (unlink s w.chain.select_tail) w v.awake (λ e. unlinked e))
          Moves-nil
      where
        unlinked : w.chain.select_tail ≡ [] → unlink s w.chain.select_tail ≡ []
        unlinked e = rw e (unfold unlink in refl)

    -- A receiver that ends its wait: `waiting` and `notified` count the others.
    module _ (waiting notified : ℕ)
        (out : ((w.receivers_notified ≡ suc notified) × (w.receivers_waiting ≡ waiting))
          ⊎ ((w.receivers_notified ≡ notified) × (w.receivers_waiting ≡ suc waiting))) where
      resume_from :
          (l : List Demand)
          → laws.contents w.chain.queue ≡ l
          → Advance laws w.chain.queue (
              settle stay
                (record w { receivers_waiting = waiting; receivers_notified = notified })
                (extract_resume ops w.chain))
      unfolding extract_resume
      resume_from [] e =
          rw (laws.is_empty_lem w.chain.queue v.valid, e, extract_resume)
            (Advance-still laws w.chain.queue _ v.valid v.bounded (settle-queue _ _ [] _)
              (rw e (
                receiver_leaves-IsAwake ops {R = ExtractionStatus × Option Demand} _ waiting
                  notified _ w (rw e at v.awake) out))
              (settle-trace _ _ [] _ Moves-nil))
      resume_from (x ∷ xs) e =
          let c' : Chain Q = record w.chain {
            threads_to_wakeup = dec_size w.chain.threads_to_wakeup;
          } in
          let (q, h, e') = extract_lem laws c' x xs v.valid e in
          let bound = rw e at v.bounded in
          rw (laws.is_empty_lem w.chain.queue v.valid, e, extract_resume)
            (rw e' (
              Advance-of laws w.chain.queue q xs [] (x ∷ []) _ (settle-queue _ _ _ _) h
                (fewer _ _ bound)
                (receiver_resumes-IsAwake ops {R = ExtractionStatus × Option Demand}
                  (msg_extracted, some x) (length xs) waiting notified (ops.is_full w.chain.queue)
                  (ops.is_full q) x w q (rw e at v.awake) out)
                (settle-trace _ _ _ _ (Moves-extracted x (ops.is_full w.chain.queue)))
                (append-nil _ ∙ e)))

      resume-Advance : Advance laws w.chain.queue (
          settle stay
            (record w { receivers_waiting = waiting; receivers_notified = notified })
            (extract_resume ops w.chain))
      resume-Advance = resume_from (laws.contents w.chain.queue) refl

    wait_again :
        (others : ℕ) (l : List Demand)
        → laws.contents w.chain.queue ≡ l
        → is_nil l ≡ true
        → is_closed w.chain.status ≡ false
        → w.receivers_notified ≡ suc others
        → Advance laws w.chain.queue
            (receiver_sleeps (record w { receivers_notified = others }), [])
    wait_again others [] e n o h =
        Advance-still laws w.chain.queue _ v.valid v.bounded refl
          (rw e (receiver_waits_again-IsAwake ops others _ w (rw e at v.awake) o h)) Moves-nil
    wait_again others (x ∷ l) e n o h = cc

    pub receiver_wakes-Advance :
        (n : ℕ)
        → w.receivers_notified ≡ n
        → Advance laws w.chain.queue (receiver_wakes_with ops p w n)
    unfolding receiver_wakes_with
    receiver_wakes-Advance zero h = Advance-idle laws p w v
    receiver_wakes-Advance (suc others) h =
        elim (Bool-cases (ops.is_empty w.chain.queue && not (is_closed w.chain.status))) [
          | inl again ↦ rw again (
              wait_again others (laws.contents w.chain.queue) refl
                (ground (arith, laws.is_empty_lem w.chain.queue v.valid)) (ground arith) h)
          | inr leaves ↦ rw leaves (resume-Advance w.receivers_waiting others (inl (h, refl)))
        ]

    pub receiver_times_out-Advance :
        (n : ℕ)
        → w.receivers_waiting ≡ n
        → Advance laws w.chain.queue (receiver_times_out_with ops p w n)
    unfolding receiver_times_out_with
    receiver_times_out-Advance zero h = Advance-idle laws p w v
    receiver_times_out-Advance (suc others) h =
        resume-Advance others w.receivers_notified (inr (refl, h))
