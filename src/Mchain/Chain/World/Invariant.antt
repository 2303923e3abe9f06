-- ===== src/Mchain/Chain/World/Invariant.antt =====
-- mchain_template with its threads: the invariant of an interleaving, and how each action moves the
-- demands. Over any queue that keeps the queue laws.
use mathlib.Core.Path.{subst}
use android_vendor_sobjectiz.Common.{
  ℕ, suc, ◌≡◌, refl, sym, ap, ap₂, ◌∙◌, Bool, true, false, not, ◌&&◌, Option, none, some, List, [],
  ◌∷◌, ◌++◌, append-nil, append_assoc, length, length-append, is_nil, arith, ◌⊎◌, ◌==◌, leb,
}
use android_vendor_sobjectiz.Mchain.Demand.{Demand, Params}
use android_vendor_sobjectiz.Mchain.Queue.{QueueOps, QueueLaws, at_limit}
use android_vendor_sobjectiz.Mchain.Chain.{Chain, Signal, returns, wake_receivers}
use android_vendor_sobjectiz.Mchain.Chain.Outcomes.{IsBounded, Holds}
use android_vendor_sobjectiz.Mchain.Chain.World.{
  World, settle, stay, deliver, stored_of, left_of, signal,
}
use android_vendor_sobjectiz.Mchain.Chain.World.Settle.{Before, after_push, told, settle-wake}
use android_vendor_sobjectiz.Mchain.Chain.World.Wakeups.{IsAwake, after_push-IsAwake}
use android_vendor_sobjectiz.Mchain.Chain.World.Trace.{Moves, removed_by, Moves-wake}

pub is_nil-length : (l : List Demand) → is_nil l ≡ (length l == 0)
is_nil-length [] = refl
is_nil-length (x ∷ l) = ground arith

module _ {Q : Type 0} where
  -- Signals leave the chain alone.
  signal-chain : (s : Signal) (w : World Q) → (signal s w).chain ≡ w.chain
  unfolding signal
  signal-chain s w = ground arith

  pub deliver-chain : (t : List Signal) (w : World Q) → (deliver t w).chain ≡ w.chain
  unfolding deliver
  deliver-chain [] w = refl
  deliver-chain (s ∷ t) w = deliver-chain t (signal s w) ∙ signal-chain s w

  pub settle-queue :
      {R : Type 0} (r : R) (c : Chain Q) (t : List Signal) (w : World Q)
      → (settle stay w (returns r c t)).0.chain.queue ≡ c.queue
  unfolding settle
  settle-queue r c t w = ap (λ (k : Chain Q). k.queue) (deliver-chain t (record w { chain = c }))

  pub settle-trace :
      {R : Type 0} (r : R) (c : Chain Q) (t : List Signal) (w : World Q) {ins outs : List Demand}
      → Moves ins outs t
      → Moves ins outs (settle stay w (returns r c t)).1
  unfolding settle
  settle-trace r c t w m = m

  pub told-queue : (b : Bool) (c : Chain Q) → (told b c).queue ≡ c.queue
  unfolding told
  told-queue true c = refl
  told-queue false c = refl

  after_push-queue :
      (wakes : Bool) (c : Chain Q) (w : World Q) → (after_push wakes c w).chain.queue ≡ c.queue
  unfolding after_push
  after_push-queue wakes c w = ground arith

module _ {Q : Type 0} {ops : QueueOps Q} (laws : QueueLaws ops) where
  pub record Inv (w : World Q) : Type 0 where
    pub valid : laws.IsValid w.chain.queue
    pub bounded : IsBounded (laws.limit w.chain.queue) (length (laws.contents w.chain.queue))
    pub awake : IsAwake (length (laws.contents w.chain.queue)) (ops.is_full w.chain.queue) w

  -- One action: the invariant is kept, and the queue is what the trace says. `l` was in the queue.
  pub record Advance (o : Q) (r : World Q × List Signal) : Type 0 where
    pub inv : Inv r.0
    pub flow : laws.contents o ++ stored_of r.1 ≡ left_of r.1 ++ laws.contents r.0.chain.queue
    pub kept_limit : laws.limit r.0.chain.queue ≡ laws.limit o

  -- The queue of the world `w` is `q`, which holds `l`.
  Inv-of :
      (o q : Q) (l : List Demand) (w : World Q)
      → w.chain.queue ≡ q
      → Holds laws o l q
      → IsBounded (laws.limit o) (length l)
      → IsAwake (length l) (ops.is_full q) w
      → Inv w
  Inv-of o q l w e h b a = record {
    valid = rw e h.valid;
    bounded = rw (e, h.items, h.same_limit) b;
    awake =
        subst (λ q'. IsAwake (length (laws.contents q')) (ops.is_full q') w) (sym e) (rw h.items a);
  }

  pub Advance-of :
      (o q : Q) (l ins outs : List Demand) (r : World Q × List Signal)
      → r.0.chain.queue ≡ q
      → Holds laws o l q
      → IsBounded (laws.limit o) (length l)
      → IsAwake (length l) (ops.is_full q) r.0
      → Moves ins outs r.1
      → laws.contents o ++ ins ≡ outs ++ l
      → Advance o r
  Advance-of o q l ins outs r e h b a m f = record {
    inv = Inv-of o q l r.0 e h b a;
    flow = rw (e, h.items, m.ins_lem, m.outs_lem) f;
    kept_limit = rw (e, h.same_limit) refl;
  }

  -- Nothing happens to the queue.
  pub Advance-still :
      (o : Q) (r : World Q × List Signal)
      → laws.IsValid o
      → IsBounded (laws.limit o) (length (laws.contents o))
      → r.0.chain.queue ≡ o
      → IsAwake (length (laws.contents o)) (ops.is_full o) r.0
      → Moves [] [] r.1
      → Advance o r
  Advance-still o r v b e a m =
      Advance-of o o (laws.contents o) [] [] r e
        (record { valid = v; items = refl; same_limit = refl }) b a m (append-nil (laws.contents o))

  pub Inv-grow : (k : Option ℕ) (n : ℕ) → IsBounded k n → at_limit k n ≡ false → IsBounded k (suc n)
  Inv-grow none n b h = tt
  Inv-grow (some m) n b h = ground arith

  length-snoc : (l : List Demand) (d : Demand) → length (l ++ d ∷ []) ≡ suc (length l)
  length-snoc l d = omega (arith, length-append l (d ∷ []))

  -- A push of `d`, when `kept` is in the queue and `q` holds it with `d` behind.
  module _ (p : Params) (d : Demand) {before : List Signal} (b : Before before) (w : World Q)
      (q : Q) (kept : List Demand) where
    pushed_world : World Q × List Signal
    pushed_world =
        settle stay w (wake_receivers ops p d before (is_nil kept) (record w.chain { queue = q }))

    pushed_lem :
        ops.size q ≡ suc (length kept)
        → pushed_world.0
          ≡ after_push
              (not (w.chain.threads_to_wakeup == 0)
                && leb (suc (length kept)) w.chain.threads_to_wakeup)
              (told (length kept == 0) (record w.chain { queue = q }))
              w
    unfolding pushed_world
    pushed_lem e =
        settle-wake ops p d (is_nil kept) (record w.chain { queue = q }) w b
        ∙ ap₂
            (λ n t.
              after_push (not (w.chain.threads_to_wakeup == 0) && leb n w.chain.threads_to_wakeup)
                (told t (record w.chain { queue = q })) w)
            e (is_nil-length kept)

    pub pushed :
        (full : Bool)
        → IsAwake (length (laws.contents w.chain.queue)) full w
        → Holds laws w.chain.queue (kept ++ d ∷ []) q
        → IsBounded (laws.limit w.chain.queue) (suc (length kept))
        → laws.contents w.chain.queue ≡ removed_by b ++ kept
        → ((full ≡ false) × (length (laws.contents w.chain.queue) ≡ length kept))
          ⊎ ((ops.is_full q ≡ true) × (length (laws.contents w.chain.queue) ≡ suc (length kept)))
        → Advance w.chain.queue (
            settle stay w
              (wake_receivers ops p d before (is_nil kept) (record w.chain { queue = q })))
    unfolding pushed_world
    pushed full a h bound split room =
        let size : ops.size q ≡ suc (length kept) =
          laws.size_lem q h.valid ∙ ap length h.items ∙ length-snoc kept d in
        Advance-of w.chain.queue q (kept ++ d ∷ []) (d ∷ []) (removed_by b) _
          (ap (λ (v : World Q). v.chain.queue) (pushed_lem size)
            ∙ after_push-queue _ _ w
            ∙ told-queue _ _)
          h (rw (length-snoc kept d) bound)
          (rw (pushed_lem size, length-snoc kept d)
            (after_push-IsAwake ops (length (laws.contents w.chain.queue)) (length kept) full
              (ops.is_full q) w.chain w q a room))
          (Moves-wake ops p d (is_nil kept) (record w.chain { queue = q }) w b)
          (rw split (append_assoc (removed_by b) kept (d ∷ [])))
