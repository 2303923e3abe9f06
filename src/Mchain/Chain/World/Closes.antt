-- ===== src/Mchain/Chain/World/Closes.antt =====
-- mchain_template with its threads: the close of a chain keeps the invariant and drops or keeps all of
-- the queue; and the invariant of every interleaving.
use android_vendor_sobjectiz.Common.{
  ℕ, ◌≡◌, refl, sym, ap, ◌∙◌, false, Option, none, some, List, [], ◌++◌, append-nil, map, length,
  length-append, is_nil, arith, inl, inr, Bool-cases, ◌⊎◌, ◌==◌,
}
use android_vendor_sobjectiz.Mchain.Demand.{Demand, Params, CloseMode, drop_content, retain_content}
use android_vendor_sobjectiz.Mchain.Queue.{QueueOps, QueueLaws}
use android_vendor_sobjectiz.Mchain.Chain.{
  returns, is_closed, close, drop_by_mode, closed_chain, demand_drop_on_close,
}
use android_vendor_sobjectiz.Mchain.Chain.Outcomes.{IsBounded, Holds, drop_all_lem}
use android_vendor_sobjectiz.Mchain.Chain.World.{World, settle, stay, deliver}
use android_vendor_sobjectiz.Mchain.Chain.World.Settle.{told, close_signals}
use android_vendor_sobjectiz.Mchain.Chain.World.Wakeups.{closed-IsAwake}
use android_vendor_sobjectiz.Mchain.Chain.World.Trace.{Moves-close}
use android_vendor_sobjectiz.Mchain.Chain.World.Invariant.{
  Inv, Advance, Advance-of, settle-queue, settle-trace, told-queue, is_nil-length,
}
use android_vendor_sobjectiz.Mchain.Chain.World.Stores.{Advance-idle}

module _ {Q : Type 0} {ops : QueueOps Q} (laws : QueueLaws ops) (p : Params) where
  module _ (w : World Q) (v : Inv laws w) where
    -- A close after which `l` is left in the queue and `dropped` was dropped, one of them empty.
    close_with :
        (q : Q) (l dropped : List Demand)
        → Holds laws w.chain.queue l q
        → laws.contents w.chain.queue ≡ dropped ++ l
        → (l ≡ []) ⊎ (dropped ≡ [])
        → Advance laws w.chain.queue (
            settle stay w (
              returns tt
                (told (length l == 0) (record w.chain { status = closed_chain; queue = q }))
                (map demand_drop_on_close dropped
                  ++ close_signals
                      (length l == 0)
                      w.chain.select_tail
                      (w.chain.threads_to_wakeup == 0)
                      (ops.is_full w.chain.queue))))
    close_with q l dropped h e shape =
        Advance-of laws w.chain.queue q l [] dropped _ (settle-queue _ _ _ w ∙ told-queue _ _) h
          (shorter (laws.limit w.chain.queue) (rw e at v.bounded))
          (closed-IsAwake ops (length (laws.contents w.chain.queue)) (length l)
            (ops.is_full w.chain.queue) (ops.is_full q) dropped w q v.awake lengths)
          (settle-trace _ _ _ w (
            Moves-close dropped (length l == 0) w.chain.select_tail (w.chain.threads_to_wakeup == 0)
              (ops.is_full w.chain.queue)))
          (append-nil _ ∙ e)
      where
        lengths : (length l ≡ 0) ⊎ (length l ≡ length (laws.contents w.chain.queue))
        lengths = elim shape [
          | inl none_left ↦ inl (ap length none_left)
          | inr none_dropped ↦ inr (rw (e, none_dropped) refl)
        ]

        shorter : (k : Option ℕ) → IsBounded k (length (dropped ++ l)) → IsBounded k (length l)
        shorter none b = tt
        shorter (some m) b = omega (arith, length-append dropped l)

    emptiness :
        (q : Q) (l : List Demand) → Holds laws w.chain.queue l q → ops.is_empty q ≡ (length l == 0)
    emptiness q l h = laws.is_empty_lem q h.valid ∙ ap is_nil h.items ∙ is_nil-length l

    close_by :
        (mode : CloseMode)
        → is_closed w.chain.status ≡ false
        → Advance laws w.chain.queue (settle stay w (close ops mode w.chain))
    unfolding close drop_by_mode told
    close_by retain_content o =
        let kept : Holds laws w.chain.queue (laws.contents w.chain.queue) w.chain.queue = record {
          valid = v.valid;
          items = refl;
          same_limit = refl;
        } in
        rw (o, close)
          (rw (emptiness w.chain.queue _ kept)
            (close_with w.chain.queue (laws.contents w.chain.queue) [] kept refl (inr refl)))
    close_by drop_content o =
        let (none_left, traced) =
          drop_all_lem laws (ops.size w.chain.queue) w.chain.queue (laws.contents w.chain.queue)
            v.valid refl (omega (arith, laws.size_lem w.chain.queue v.valid)) in
        rw (o, close)
          (rw (emptiness _ [] none_left, traced)
            (close_with _ [] (laws.contents w.chain.queue) none_left (sym (append-nil _))
              (inl refl)))

    pub close-Advance :
        (mode : CloseMode) → Advance laws w.chain.queue (settle stay w (close ops mode w.chain))
    unfolding settle deliver close
    close-Advance mode = elim (Bool-cases (is_closed w.chain.status)) [
      | inl closed ↦ rw (closed, close) (Advance-idle laws p w v)
      | inr o ↦ close_by mode o
    ]
