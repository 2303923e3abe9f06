-- ===== src/Mchain/Chain/Outcomes.antt =====
-- mchain_template: how the parts of its operations end, over any queue that keeps the queue laws.
use android_vendor_sobjectiz.Common.{
  ℕ, zero, suc, ◌≡◌, ◌≤◌, refl, ap, ◌∙◌, false, if◌then◌else◌, Option, none, some, List, [], ◌∷◌,
  ◌++◌, map, length, is_nil, arith,
}
use android_vendor_sobjectiz.Mchain.Demand.{Demand, Params, remove_oldest, msg_extracted}
use android_vendor_sobjectiz.Mchain.Queue.{QueueOps, QueueLaws, at_limit}
use android_vendor_sobjectiz.Mchain.Chain.{
  Chain, Signal, returns, extracted, overflow_all, overflow_remove_oldest, demand_drop_on_close,
  wake_receivers, push_demand, react, extract_demand_from_not_empty_queue, drop_all,
}

-- The demands fit below the limit, if there is one.
abbrev pub IsBounded : Option ℕ → ℕ → Type 0
IsBounded none n = Unit
IsBounded (some m) n = n ≤ m

module _ {Q : Type 0} {ops : QueueOps Q} (laws : QueueLaws ops) where
  -- `q` is a valid queue that holds `l` and has the limit of `o`.
  pub record Holds (o : Q) (l : List Demand) (q : Q) : Type 0 where
    pub valid : laws.IsValid q
    pub items : laws.contents q ≡ l
    pub same_limit : laws.limit q ≡ laws.limit o

  module _ (p : Params) (d : Demand) (c : Chain Q) (v : laws.IsValid c.queue) where
    pub push_demand_lem :
        (before : List Signal)
        → ops.is_full c.queue ≡ false
        → (q : Q) × Holds c.queue (laws.contents c.queue ++ d ∷ []) q
          × (push_demand ops p d before c
              ≡ wake_receivers ops p d before
                  (is_nil (laws.contents c.queue))
                  (record c { queue = q }))
    unfolding push_demand
    push_demand_lem before room =
        let (q, pushes, v', items, same) = laws.push_back_lem c.queue d v room in
        (
          q,
          record { valid = v'; items = items; same_limit = same },
          rw (pushes, laws.is_empty_lem c.queue v, push_demand) refl,
        )

  room_behind :
      (o : Q) (x : Demand) (xs : List Demand) (q : Q)
      → laws.IsValid o
      → laws.contents o ≡ x ∷ xs
      → IsBounded (laws.limit o) (length (x ∷ xs))
      → Holds o xs q
      → ops.is_full q ≡ false
  room_behind o x xs q v e b h =
      rw (laws.is_full_lem q h.valid, h.items, h.same_limit) (small (laws.limit o) b)
    where
      small : (k : Option ℕ) → IsBounded k (length (x ∷ xs)) → at_limit k (length xs) ≡ false
      small none b = refl
      small (some m) b = ground arith

  module _ (p : Params) (d : Demand) (c : Chain Q) (x : Demand) (xs : List Demand)
      (v : laws.IsValid c.queue) (e : laws.contents c.queue ≡ x ∷ xs) where
    pub remove_oldest_lem :
        IsBounded (laws.limit c.queue) (length (x ∷ xs))
        → (q : Q) × Holds c.queue (xs ++ d ∷ []) q
          × (react ops p remove_oldest d c
              ≡ wake_receivers ops p d
                  (overflow_remove_oldest x ∷ [])
                  (is_nil xs)
                  (record c { queue = q }))
    unfolding react
    remove_oldest_lem b =
        let (q, pops, v', rest, same) = laws.pop_front_lem c.queue x xs v e in
        let h : Holds c.queue xs q = record { valid = v'; items = rest; same_limit = same } in
        let (q', h', pushes) =
          push_demand_lem p d (record c { queue = q }) v' (overflow_remove_oldest x ∷ [])
            (room_behind c.queue x xs q v e b h) in
        (
          q',
          record {
            valid = h'.valid;
            items = h'.items ∙ ap (λ l. l ++ d ∷ []) rest;
            same_limit = h'.same_limit ∙ same;
          },
          rw (laws.front_lem c.queue x xs v e, pops, react) (rw rest at pushes),
        )

  module _ (c : Chain Q) (x : Demand) (xs : List Demand) (v : laws.IsValid c.queue)
      (e : laws.contents c.queue ≡ x ∷ xs) where
    pub extract_lem :
        (q : Q) × Holds c.queue xs q
        × (extract_demand_from_not_empty_queue ops c
            ≡ returns
                (msg_extracted, some x)
                (record c { queue = q })
                (extracted x ∷ (if ops.is_full c.queue then overflow_all ∷ [] else [])))
    unfolding extract_demand_from_not_empty_queue
    extract_lem =
        let (q, pops, v', rest, same) = laws.pop_front_lem c.queue x xs v e in
        (
          q,
          record { valid = v'; items = rest; same_limit = same },
          rw (laws.front_lem c.queue x xs v e, pops, extract_demand_from_not_empty_queue) refl,
        )

  -- With as much fuel as there are demands, the drop loop empties the queue and traces each demand.
  pub drop_all_lem :
      (fuel : ℕ) (q : Q) (l : List Demand)
      → laws.IsValid q
      → laws.contents q ≡ l
      → length l ≤ fuel
      → Holds q [] (drop_all ops fuel q).0 × ((drop_all ops fuel q).1 ≡ map demand_drop_on_close l)
  unfolding drop_all
  drop_all_lem zero q [] v e h = (record { valid = v; items = e; same_limit = refl }, refl)
  drop_all_lem zero q (x ∷ xs) v e h = absurd (omega arith)
  drop_all_lem (suc fuel) q [] v e h =
      rw (laws.is_empty_lem q v, e) (record { valid = v; items = e; same_limit = refl }, refl)
  drop_all_lem (suc fuel) q (x ∷ xs) v e h =
      let (q', pops, v', rest, same) = laws.pop_front_lem q x xs v e in
      let (held, traced) = drop_all_lem fuel q' xs v' rest (omega arith) in
      rw (laws.is_empty_lem q v, e, laws.front_lem q x xs v e, pops)
        (
          record { valid = held.valid; items = held.items; same_limit = held.same_limit ∙ same },
          ap (◌∷◌ (demand_drop_on_close x)) traced,
        )
