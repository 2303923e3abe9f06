-- ===== src/Mchain/Queue/Preallocated/Laws.antt =====
-- limited_preallocated_demand_queue is a bounded first-in first-out queue, and its free slots hold no
-- message.
use native.Mathlib.Nat.{mod-lt, mod-eq_of_lt, mod-add-mod, add-zero, add_assoc, add_comm}
use native.Mathlib.Decide.{dec_lt}
use android_vendor_sobjectiz.Common.{
  ℕ, ◌≡◌, ◌≢◌, ◌+◌, ◌-◌, ◌%◌, ◌≤◌, ◌<◌, refl, sym, ap, ap₂, List, [], ◌∷◌, ◌++◌, ◌∙◌, length,
  get_or, set, get_or-set_self, get_or-set_ne, length-set, replicate, arith, some, false, ok,
  is_nil, length-replicate,
}
use android_vendor_sobjectiz.Mchain.Demand.{Demand, default_demand}
use android_vendor_sobjectiz.Mchain.Queue.{QueueLaws}
use android_vendor_sobjectiz.Mchain.Queue.Preallocated.{
  PreallocatedQueue, make, is_full, is_empty, front, pop_front, push_back, size, ops,
}
use android_vendor_sobjectiz.Mchain.Queue.Preallocated.Ring.{
  slots, slots-mod, slots-set_ne, slots-suc, slot_apart, length-slots, slots-zero, slots_pos,
  get_or-set_clear, get_or-set_clear_self, slot_wrap, get_or-replicate,
}

abbrev pub contents : PreallocatedQueue → List Demand
contents q = slots q.storage q.max_size q.head q.count

pub record IsValid (q : PreallocatedQueue) : Type 0 where
  pub storage_size : length q.storage ≡ q.max_size
  pub head_inside : 0 < q.max_size → q.head < q.max_size
  pub count_bounded : q.count ≤ q.max_size
  pub free_is_clear :
      (k : ℕ)
      → q.count ≤ k
      → k < q.max_size
      → get_or q.storage ((q.head + k) % q.max_size) default_demand ≡ default_demand

pub make-IsValid : (m : ℕ) → IsValid (make m)
unfolding make
make-IsValid m = record {
  storage_size = length-replicate m default_demand;
  head_inside = λ h. h;
  count_bounded = omega arith;
  free_is_clear = λ k low high. get_or-replicate m ((0 + k) % m) default_demand;
}

module _ (q : PreallocatedQueue) where
  is_empty_lem : is_empty q ≡ is_nil (contents q)
  unfolding is_empty
  is_empty_lem = elim (dec_lt 0 q.count) [
    | yes p ↦ rw (slots_pos q.storage q.max_size q.head q.count p) (ground arith)
    | no p ↦ rw (slots-zero q.storage q.max_size q.head q.count (omega arith)) (ground arith)
  ]

  count_pos : (d : Demand) (ds : List Demand) → contents q ≡ d ∷ ds → 0 < q.count
  count_pos d ds e = omega (arith, ap length e, length-slots q.storage q.max_size q.head q.count)

  count_zero : contents q ≡ [] → q.count ≡ 0
  count_zero e = omega (arith, ap length e, length-slots q.storage q.max_size q.head q.count)

-- What `pop_front` leaves.
after_pop : PreallocatedQueue → PreallocatedQueue
after_pop q = record q {
  storage = set q.storage q.head default_demand;
  head = (q.head + 1) % q.max_size;
  count = q.count - 1;
}

-- What `push_back` leaves.
after_push : PreallocatedQueue → Demand → PreallocatedQueue
after_push q d = record q {
  storage = set q.storage ((q.head + q.count) % q.max_size) d;
  count = q.count + 1;
}

module _ (q : PreallocatedQueue) (v : IsValid q) where
  head_small : 0 < q.count → q.head < q.max_size
  head_small h = v.head_inside (omega (arith, v.count_bounded))

  head_mod : 0 < q.count → q.head % q.max_size ≡ q.head
  head_mod h = mod-eq_of_lt (head_small h)

  front_lem : (d : Demand) (ds : List Demand) → contents q ≡ d ∷ ds → front q ≡ ok d
  unfolding front
  front_lem d ds e =
      let p = count_pos q d ds e in
      ground (arith, p, e, head_mod p, slots_pos q.storage q.max_size q.head q.count p)

  popped_clear :
      (k : ℕ)
      → 0 < q.count
      → q.count - 1 ≤ k
      → k < q.max_size
      → get_or
          (set q.storage q.head default_demand)
          ((q.head + (k + 1)) % q.max_size)
          default_demand
        ≡ default_demand
  popped_clear k p low high = elim (dec_lt (k + 1) q.max_size) [
    | yes lt ↦
        get_or-set_clear q.storage q.head _ default_demand
          (v.free_is_clear (k + 1) (omega arith) lt)
    | no ge ↦
        rw (slot_wrap q.max_size q.head k _ (head_small p) (omega arith) refl)
          (get_or-set_clear_self q.storage q.head default_demand)
  ]

  after_pop-IsValid : 0 < q.count → IsValid (after_pop q)
  unfolding after_pop
  after_pop-IsValid p = record {
    storage_size = length-set q.storage q.head default_demand ∙ v.storage_size;
    head_inside = λ h. mod-lt (q.head + 1) h;
    count_bounded = omega (arith, v.count_bounded);
    free_is_clear = λ k low high.
        rw (mod-add-mod (q.head + 1) q.max_size k, add_assoc q.head 1 k, add_comm 1 k)
          (popped_clear k p low high);
  }

  contents-after_pop :
      (d : Demand) (ds : List Demand) → contents q ≡ d ∷ ds → contents (after_pop q) ≡ ds
  unfolding after_pop
  contents-after_pop d ds e =
      slots-mod (set q.storage q.head default_demand) q.max_size (q.head + 1) (q.count - 1)
      ∙ slots-set_ne q.storage q.max_size (q.head + 1) (q.count - 1) q.head default_demand apart
      ∙ rest
    where
      p : 0 < q.count
      p = count_pos q d ds e

      apart : (k : ℕ) → k < q.count - 1 → q.head ≢ (q.head + 1 + k) % q.max_size
      apart k lt f =
          slot_apart q.max_size q.head 0 (1 + k) (head_small p) (omega (arith, v.count_bounded))
            (omega (arith, v.count_bounded)) (omega arith)
            (rw (add-zero, head_mod p, ← add_assoc) f)

      rest : slots q.storage q.max_size (q.head + 1) (q.count - 1) ≡ ds
      rest = cc (slots_pos q.storage q.max_size q.head q.count p)

  module _ (d : Demand) (room : q.count < q.max_size) where
    inside : q.head < q.max_size
    inside = v.head_inside (omega arith)

    after_push-IsValid : IsValid (after_push q d)
    unfolding after_push
    after_push-IsValid = record {
      storage_size = length-set q.storage _ d ∙ v.storage_size;
      head_inside = v.head_inside;
      count_bounded = omega arith;
      free_is_clear = λ k low high.
          get_or-set_ne q.storage _ _ d default_demand
            (slot_apart q.max_size q.head q.count k inside room high (omega arith))
          ∙ v.free_is_clear k (omega arith) high;
    }

    contents-after_push : contents (after_push q d) ≡ contents q ++ d ∷ []
    unfolding after_push
    contents-after_push =
        ap (slots stored q.max_size q.head) (omega arith)
        ∙ slots-suc stored q.max_size q.head q.count
        ∙ ap₂ (λ l x. l ++ x ∷ [])
            (slots-set_ne q.storage q.max_size q.head q.count _ d (λ k lt.
              slot_apart q.max_size q.head q.count k inside room (omega arith) (omega arith)))
            (get_or-set_self q.storage _ d default_demand
              (rw v.storage_size (mod-lt _ (omega arith))))
      where
        stored : List Demand
        stored = set q.storage ((q.head + q.count) % q.max_size) d

pop_front_lem : (q : PreallocatedQueue) → 0 < q.count → pop_front q ≡ ok (after_pop q)
unfolding pop_front after_pop
pop_front_lem q p = ground arith

push_back_lem :
    (q : PreallocatedQueue) (d : Demand)
    → q.count < q.max_size
    → push_back d q ≡ ok (after_push q d)
unfolding push_back after_push
push_back_lem q d room = ground arith

room_of_not_full : (q : PreallocatedQueue) → IsValid q → is_full q ≡ false → q.count < q.max_size
unfolding is_full
room_of_not_full q v e = ground (arith, v.count_bounded)

pub laws : QueueLaws ops
unfolding ops
laws = record {
  IsValid = IsValid;
  contents = contents;
  limit = λ q. some q.max_size;
  is_full_lem =
      λ q v. rw (length-slots q.storage q.max_size q.head q.count) (unfold is_full in refl);
  is_empty_lem = λ q v. is_empty_lem q;
  size_lem = λ q v. unfold size in sym (length-slots q.storage q.max_size q.head q.count);
  front_lem = λ q d ds v e. front_lem q v d ds e;
  pop_front_lem = λ q d ds v e.
      let p = count_pos q d ds e in
      (
        after_pop q,
        pop_front_lem q p,
        after_pop-IsValid q v p,
        contents-after_pop q v d ds e,
        unfold after_pop in refl,
      );
  push_back_lem = λ q d v e.
      let p = room_of_not_full q v e in
      (
        after_push q d,
        push_back_lem q d p,
        after_push-IsValid q v d p,
        contents-after_push q v d p,
        unfold after_push in refl,
      );
  front_empty = λ q v e. unfold front in ground (arith, count_zero q e);
  pop_front_empty = λ q v e. unfold pop_front in ground (arith, count_zero q e);
  push_back_full = λ q d v e. unfold push_back in ground (arith, e);
}

-- A new ring is valid, empty and limited by its size.
pub make-empty :
    (m : ℕ) → laws.IsValid (make m) × (laws.contents (make m) ≡ []) × (laws.limit (make m) ≡ some m)
unfolding laws make
make-empty m = (make-IsValid m, slots-zero (replicate m default_demand) m 0 0 refl, refl)
