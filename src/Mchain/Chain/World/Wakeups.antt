-- ===== src/Mchain/Chain/World/Wakeups.antt =====
-- mchain_template with its threads: no wake-up is lost. Receivers, senders and select cases.
use android_vendor_sobjectiz.Common.{
  ℕ, suc, ◌≡◌, ◌≤◌, ◌+◌, Bool, true, false, not, ◌&&◌, if◌then◌else◌, List, [], ◌∷◌, ◌++◌, map,
  arith, min, ◌⊎◌, ◌==◌, leb, dec_size,
}
use android_vendor_sobjectiz.Mchain.Demand.{Demand}
use android_vendor_sobjectiz.Mchain.Queue.{QueueOps}
use android_vendor_sobjectiz.Mchain.Chain.{
  Chain, is_closed, closed_chain, returns, extracted, underflow_all, overflow_all,
  demand_drop_on_close,
}
use android_vendor_sobjectiz.Mchain.Chain.World.{
  World, settle, stay, deliver, signal, receiver_sleeps, sender_sleeps,
}
use android_vendor_sobjectiz.Mchain.Chain.World.Settle.{
  after_push, told, close_signals, deliver-close,
}

-- What holds between two actions in a world whose queue holds `n` demands and is full or not.
pub record IsAwake {Q : Type 0} (n : ℕ) (full : Bool) (w : World Q) : Type 0 where
  -- The count of sleeping threads is exact.
  pub threads : w.chain.threads_to_wakeup ≡ w.receivers_waiting + w.receivers_notified
  -- As many sleeping receivers are notified as there are demands for them.
  pub receivers : min (w.receivers_waiting + w.receivers_notified) n ≤ w.receivers_notified
  -- Nobody stays asleep on a closed chain.
  pub receivers_closed : is_closed w.chain.status ≡ true → w.receivers_waiting ≡ 0
  -- A sender that is not notified waits for a full and open chain.
  pub senders : (w.senders_waiting ≡ []) ⊎ ((full ≡ true) × (is_closed w.chain.status ≡ false))
  -- A select case is queued at an empty and open chain only.
  pub selects : (w.chain.select_tail ≡ []) ⊎ ((n ≡ 0) × (is_closed w.chain.status ≡ false))

module _ {Q : Type 0} (ops : QueueOps Q) where
  -- A push, to a queue that was not full or after the removal of its oldest demand.
  pub after_push-IsAwake :
      (n k : ℕ) (full full' : Bool) (c : Chain Q) (w : World Q) (q : Q)
      → IsAwake n full w
      → ((full ≡ false) × (n ≡ k)) ⊎ ((full' ≡ true) × (n ≡ suc k))
      → IsAwake (suc k) full' (
          after_push
            (not (w.chain.threads_to_wakeup == 0) && leb (suc k) w.chain.threads_to_wakeup)
            (told (k == 0) (record w.chain { queue = q }))
            w)
  unfolding after_push told
  after_push-IsAwake n k full full' c w q a h = ground arith

  -- An extraction by a thread that did not sleep.
  pub extracted-IsAwake :
      {R : Type 0} (r : R) (n : ℕ) (full full' : Bool) (d : Demand) (w : World Q) (q : Q)
      → IsAwake (suc n) full w
      → IsAwake n full'
          (settle stay w (
            returns r
              (record w.chain { queue = q })
              (extracted d ∷ (if full then overflow_all ∷ [] else [])))).0
  unfolding settle deliver signal
  extracted-IsAwake r n true full' d w q a = ground arith
  extracted-IsAwake r n false full' d w q a = ground arith

  -- The end of a wait, of a notified receiver or of one whose time is out, with a demand.
  pub receiver_resumes-IsAwake :
      {R : Type 0} (r : R) (n waiting notified : ℕ) (full full' : Bool) (d : Demand) (w : World Q)
      (q : Q)
      → IsAwake (suc n) full w
      → ((w.receivers_notified ≡ suc notified) × (w.receivers_waiting ≡ waiting))
        ⊎ ((w.receivers_notified ≡ notified) × (w.receivers_waiting ≡ suc waiting))
      → IsAwake n full'
          (settle stay
            (record w { receivers_waiting = waiting; receivers_notified = notified })
            (returns r
              (record w.chain { queue = q; threads_to_wakeup = dec_size w.chain.threads_to_wakeup })
              (extracted d ∷ (if full then overflow_all ∷ [] else [])))).0
  unfolding settle deliver signal
  receiver_resumes-IsAwake r n waiting notified true full' d w q a h = ground arith
  receiver_resumes-IsAwake r n waiting notified false full' d w q a h = ground arith

  -- The end of a wait with nothing.
  pub receiver_leaves-IsAwake :
      {R : Type 0} (r : R) (waiting notified : ℕ) (full : Bool) (w : World Q)
      → IsAwake 0 full w
      → ((w.receivers_notified ≡ suc notified) × (w.receivers_waiting ≡ waiting))
        ⊎ ((w.receivers_notified ≡ notified) × (w.receivers_waiting ≡ suc waiting))
      → IsAwake 0 full
          (settle stay
            (record w { receivers_waiting = waiting; receivers_notified = notified })
            (returns r
              (record w.chain { threads_to_wakeup = dec_size w.chain.threads_to_wakeup })
              [])).0
  unfolding settle deliver signal
  receiver_leaves-IsAwake r waiting notified full w a h = ground arith

  -- The signals of a close, on a world whose chain is closed and holds `m` demands.
  ends-IsAwake :
      (m : ℕ) (full full' nobody : Bool) (w : World Q)
      → w.chain.threads_to_wakeup ≡ w.receivers_waiting + w.receivers_notified
      → min (w.receivers_waiting + w.receivers_notified) m ≤ w.receivers_notified
      → (nobody ≡ (w.chain.threads_to_wakeup == 0))
      → (w.senders_waiting ≡ []) ⊎ (full ≡ true)
      → w.chain.select_tail ≡ []
      → IsAwake m full' (
          deliver
            ((if nobody then [] else underflow_all ∷ [])
              ++ (if full then overflow_all ∷ [] else []))
            w)
  unfolding deliver signal
  ends-IsAwake m true full' true w e r b s c = ground arith
  ends-IsAwake m true full' false w e r b s c = ground arith
  ends-IsAwake m false full' true w e r b s c = ground arith
  ends-IsAwake m false full' false w e r b s c = ground arith

  -- A close, after which the queue holds nothing or what it held.
  pub closed-IsAwake :
      (n m : ℕ) (full full' : Bool) (l : List Demand) (w : World Q) (q : Q)
      → IsAwake n full w
      → (m ≡ 0) ⊎ (m ≡ n)
      → IsAwake m full'
          (settle stay w (
            returns tt (told (m == 0) (record w.chain { status = closed_chain; queue = q })) (
              map demand_drop_on_close l
              ++ close_signals
                  (m == 0)
                  w.chain.select_tail
                  (w.chain.threads_to_wakeup == 0)
                  full))).0
  unfolding settle told
  closed-IsAwake n m full full' l w q a h =
      rw
        (deliver-close l (m == 0) w.chain.select_tail (w.chain.threads_to_wakeup == 0) full
          (record w {
            chain = told (m == 0) (record w.chain { status = closed_chain; queue = q });
          }))
        (ends-IsAwake m full full' (w.chain.threads_to_wakeup == 0)
          (record w { chain = told (m == 0) (record w.chain { status = closed_chain; queue = q }) })
          (ground arith) (ground arith) (ground arith) (ground arith) (ground arith))

  -- The actions that touch neither the queue nor a signal.
  pub receiver_sleeps-IsAwake :
      (full : Bool) (w : World Q)
      → IsAwake 0 full w
      → is_closed w.chain.status ≡ false
      → IsAwake 0 full (
          receiver_sleeps (record w {
            chain = record w.chain { threads_to_wakeup = w.chain.threads_to_wakeup + 1 };
          }))
  receiver_sleeps-IsAwake full w a o = ground arith

  pub receiver_waits_again-IsAwake :
      (notified : ℕ) (full : Bool) (w : World Q)
      → IsAwake 0 full w
      → is_closed w.chain.status ≡ false
      → w.receivers_notified ≡ suc notified
      → IsAwake 0 full (receiver_sleeps (record w { receivers_notified = notified }))
  receiver_waits_again-IsAwake notified full w a o e = ground arith

  pub sender_sleeps-IsAwake :
      (n : ℕ) (d : Demand) (ds : List Demand) (w : World Q)
      → IsAwake n true w
      → is_closed w.chain.status ≡ false
      → IsAwake n true (sender_sleeps d (record w { senders_notified = ds }))
  sender_sleeps-IsAwake n d ds w a o = ground arith

  pub sender_leaves-IsAwake :
      (n : ℕ) (full : Bool) (waiting notified : List Demand) (w : World Q)
      → IsAwake n full w
      → (w.senders_waiting ≡ [] → waiting ≡ [])
      → IsAwake n full (record w { senders_waiting = waiting; senders_notified = notified })
  sender_leaves-IsAwake n full waiting notified w a h = ground arith

  pub selects-IsAwake :
      (full : Bool) (l : List ℕ) (w : World Q)
      → IsAwake 0 full w
      → is_closed w.chain.status ≡ false
      → IsAwake 0 full (record w { chain = record w.chain { select_tail = l } })
  selects-IsAwake full l w a o = ground arith

  pub unselects-IsAwake :
      (n : ℕ) (full : Bool) (l : List ℕ) (w : World Q)
      → IsAwake n full w
      → (w.chain.select_tail ≡ [] → l ≡ [])
      → IsAwake n full (record w { chain = record w.chain { select_tail = l } })
  unselects-IsAwake n full l w a h = ground arith

  pub aborted-IsAwake :
      (n : ℕ) (full : Bool) (w : World Q)
      → IsAwake n full w
      → IsAwake n full (record w { aborted = true })
  aborted-IsAwake n full w a = ground arith
