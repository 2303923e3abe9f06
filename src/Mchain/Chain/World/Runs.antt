-- ===== src/Mchain/Chain/World/Runs.antt =====
-- mchain_template with its threads: what holds after any interleaving of actions.
use android_vendor_sobjectiz.Common.{
  ℕ, ◌≡◌, refl, sym, ap, ◌∙◌, Bool, true, false, if◌then◌else◌, Option, none, some, List, [], ◌∷◌,
  ◌++◌, append_assoc, arith,
}
use android_vendor_sobjectiz.Mchain.Demand.{Params}
use android_vendor_sobjectiz.Mchain.Queue.{QueueOps, QueueLaws}
use android_vendor_sobjectiz.Mchain.Chain.Outcomes.{IsBounded}
use android_vendor_sobjectiz.Mchain.Chain.{Signal}
use android_vendor_sobjectiz.Mchain.Chain.World.{
  World, Action, start, act, step, run, send, sender_wakes, sender_times_out, receive,
  receiver_wakes, receiver_times_out, closes, selects, unselects, stored_of, left_of, take_nth,
}
use android_vendor_sobjectiz.Mchain.Chain.World.Wakeups.{IsAwake}
use android_vendor_sobjectiz.Mchain.Chain.World.Invariant.{Inv, Advance}
use android_vendor_sobjectiz.Mchain.Chain.World.Trace.{stored_of-append, left_of-append}
use android_vendor_sobjectiz.Mchain.Chain.World.Stores.{
  Advance-idle, store-Advance, sender_wakes-Advance, sender_times_out-Advance,
}
use android_vendor_sobjectiz.Mchain.Chain.World.Extracts.{
  extract-Advance, select-Advance, unselect-Advance, receiver_wakes-Advance,
  receiver_times_out-Advance,
}
use android_vendor_sobjectiz.Mchain.Chain.World.Closes.{close-Advance}

module _ {Q : Type 0} {ops : QueueOps Q} (laws : QueueLaws ops) (p : Params) where
  act-Advance : (w : World Q) (a : Action) → Inv laws w → Advance laws w.chain.queue (act ops p w a)
  unfolding act
  act-Advance w (send d) v = store-Advance laws p d w v
  act-Advance w (sender_wakes i) v = sender_wakes-Advance laws p w (take_nth i w.senders_notified) v
  act-Advance w (sender_times_out i) v =
      sender_times_out-Advance laws p w i (take_nth i w.senders_waiting) refl v
  act-Advance w receive v = extract-Advance laws p w v
  act-Advance w receiver_wakes v = receiver_wakes-Advance laws p w v w.receivers_notified refl
  act-Advance w receiver_times_out v =
      receiver_times_out-Advance laws p w v w.receivers_waiting refl
  act-Advance w (closes mode) v = close-Advance laws p w v mode
  act-Advance w (selects s) v = select-Advance laws p w v s
  act-Advance w (unselects s) v = unselect-Advance laws p w v s

  step-Advance :
      (w : World Q) (a : Action) → Inv laws w → Advance laws w.chain.queue (step ops p w a)
  unfolding step
  step-Advance w a v = stopped w.aborted
    where
      stopped : (b : Bool) → Advance laws w.chain.queue (if b then (w, []) else act ops p w a)
      stopped true = Advance-idle laws p w v
      stopped false = act-Advance w a v

  -- Two actions after each other.
  Advance-trans :
      (o : Q) (r r' : World Q × List Signal)
      → Advance laws o r
      → Advance laws r.0.chain.queue r'
      → Advance laws o (r'.0, r.1 ++ r'.1)
  Advance-trans o r r' a b = record {
    inv = b.inv;
    flow =
        rw (stored_of-append r.1 r'.1, left_of-append r.1 r'.1)
          (sym (append_assoc (laws.contents o) (stored_of r.1) (stored_of r'.1))
            ∙ ap (λ l. l ++ stored_of r'.1) a.flow
            ∙ append_assoc (left_of r.1) (laws.contents r.0.chain.queue) (stored_of r'.1)
            ∙ ap (◌++◌ (left_of r.1)) b.flow
            ∙ sym (append_assoc (left_of r.1) (left_of r'.1) (laws.contents r'.0.chain.queue)));
    kept_limit = b.kept_limit ∙ a.kept_limit;
  }

  run-Advance :
      (w : World Q) (as_ : List Action) → Inv laws w → Advance laws w.chain.queue (run ops p w as_)
  unfolding run
  run-Advance w [] v = Advance-idle laws p w v
  run-Advance w (a ∷ as_) v =
      let first = step-Advance w a v in
      Advance-trans w.chain.queue (step ops p w a) (run ops p (step ops p w a).0 as_) first
        (run-Advance (step ops p w a).0 as_ first.inv)

  module _ (q : Q) (as_ : List Action) (valid : laws.IsValid q) (empty : laws.contents q ≡ []) where
    start-Inv : Inv laws (start q)
    unfolding start
    start-Inv = record {
      valid = valid;
      bounded = rw empty (within (laws.limit q));
      awake = rw empty (ground arith);
    }
      where
        within : (k : Option ℕ) → IsBounded k 0
        within none = tt
        within (some m) = omega arith

    run-start : Advance laws q (run ops p (start q) as_)
    unfolding start
    run-start = run-Advance (start q) as_ start-Inv

    -- A chain over any lawful queue, empty at the start, is first-in first-out whatever its
    -- threads do: the demands stored in it are, in the same order, those that left it (extracted,
    -- removed as the oldest, or dropped by a close) followed by those that it still holds. So none
    -- is lost, repeated or overtaken.
    pub run-fifo :
        stored_of (run ops p (start q) as_).1
        ≡ left_of (run ops p (start q) as_).1
          ++ laws.contents (run ops p (start q) as_).0.chain.queue
    run-fifo = ap (λ l. l ++ stored_of (run ops p (start q) as_).1) (sym empty) ∙ run-start.flow

    -- No wake-up is lost on a chain over any lawful queue, empty at the start: after any
    -- interleaving as many sleeping receivers are notified as there are demands for them, no
    -- receiver sleeps on a closed chain without being notified, a sender sleeps without being
    -- notified on a full and open chain only, a select case is queued at an empty and open chain
    -- only, and `m_threads_to_wakeup` is the number of sleeping receivers.
    pub run-IsAwake :
        IsAwake
          (ops.size (run ops p (start q) as_).0.chain.queue)
          (ops.is_full (run ops p (start q) as_).0.chain.queue)
          (run ops p (start q) as_).0
    run-IsAwake = rw (laws.size_lem _ run-start.inv.valid) run-start.inv.awake
