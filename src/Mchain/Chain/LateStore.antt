-- ===== src/Mchain/Chain/LateStore.antt =====
-- mchain_template: a sender that sleeps on a full chain while the chain is closed. `close` wakes it,
-- and what it does then does not look at the status again.
use android_vendor_sobjectiz.Common.{
  ◌≡◌, refl, ap, ◌∙◌, Bool, true, false, if◌then◌else◌, [], ◌∷◌, ◌++◌, length, is_nil, arith, ap₂,
}
use android_vendor_sobjectiz.Mchain.Demand.{Demand, Params, drop_content}
use android_vendor_sobjectiz.Mchain.Queue.{QueueOps, QueueLaws, at_limit}
use android_vendor_sobjectiz.Mchain.Chain.{
  Chain, is_closed, Outcome, throws, sleeps, aborts, open_chain, closed_chain, returns, store,
  store_resume, close, drop_by_mode, wake_receivers,
}
use android_vendor_sobjectiz.Mchain.Chain.Outcomes.{Holds, push_demand_lem, drop_all_lem}

-- The operation part returns, and the chain that it leaves satisfies `P`.
abbrev pub Leaves : {Q R : Type 0} → Outcome Q R → (Chain Q → Type 0) → Type 0
Leaves (returns r c t) P = P c
Leaves (throws e c t) P = ⊥
Leaves (sleeps c) P = ⊥
Leaves aborts P = ⊥

module _ {Q : Type 0} {ops : QueueOps Q} (laws : QueueLaws ops) (p : Params) (d : Demand) where
  -- A closed chain refuses a store that starts after the close, and stays as it is.
  pub store_closed : (c : Chain Q) → c.status ≡ closed_chain → store ops p d c ≡ returns tt c []
  unfolding store
  store_closed c e = rw (ap is_closed e, store) refl

  -- A push of `d` to an empty queue that has room.
  store_lone :
      (o : Q) (c : Chain Q)
      → Holds laws o [] c.queue
      → at_limit (laws.limit o) 0 ≡ false
      → Leaves
          (store_resume ops p d c)
          (λ c'. (c'.status ≡ c.status) × (laws.contents c'.queue ≡ d ∷ []))
  unfolding store_resume wake_receivers
  store_lone o c h room =
      let free : ops.is_full c.queue ≡ false =
        laws.is_full_lem c.queue h.valid ∙ ap₂ at_limit h.same_limit (ap length h.items) ∙ room in
      let (q, h', e) = push_demand_lem laws p d c h.valid [] free in
      rw (free, store_resume)
        (rw e (
          told_status (is_nil (laws.contents c.queue)) q,
          told_items (is_nil (laws.contents c.queue)) q (h'.items ∙ ap (λ l. l ++ d ∷ []) h.items),
        ))
    where
      told_status :
          (b : Bool) (q : Q)
          → (if b then record c { queue = q; select_tail = [] } else record c { queue = q }).status
            ≡ c.status
      told_status true q = refl
      told_status false q = refl

      told_items :
          (b : Bool) (q : Q)
          → laws.contents q ≡ d ∷ []
          → laws.contents
              (if b then record c { queue = q; select_tail = [] } else record c { queue = q }).queue
            ≡ d ∷ []
      told_items true q e = e
      told_items false q e = e

  -- Whenever an open chain whose limit is not 0 is closed with its content dropped, a sender that was
  -- asleep on it and goes on afterwards still stores its demand: the chain ends closed, and with
  -- that demand in its queue.
  pub close-store_resume :
      (c : Chain Q)
      → laws.IsValid c.queue
      → c.status ≡ open_chain
      → at_limit (laws.limit c.queue) 0 ≡ false
      → Leaves (close ops drop_content c) (λ c'.
        Leaves
          (store_resume ops p d c')
          (λ c''. (c''.status ≡ closed_chain) × (laws.contents c''.queue ≡ d ∷ [])))
  unfolding close drop_by_mode
  close-store_resume c v o room =
      let (h, traced) =
        drop_all_lem laws (ops.size c.queue) c.queue (laws.contents c.queue) v refl
          (omega (arith, laws.size_lem c.queue v)) in
      rw (ap is_closed o, close)
        (rw (laws.is_empty_lem _ h.valid, h.items) (store_lone c.queue _ h room))
