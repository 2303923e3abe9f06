-- ===== src/Mchain/Queue/LimitedDynamic.antt =====
-- so_5/rt/impl/h/mchain_details.hpp: limited_dynamic_demand_queue.
use android_vendor_sobjectiz.Common.{
  ℕ, ◌≡◌, ◌≤◌, refl, ◌==◌, if◌then◌else◌, Bool, some, List, [], ◌∷◌, ◌++◌, length, length-append,
  is_nil, Result, ok, err, msg_chain_is_empty, msg_chain_is_full, arith,
}
use android_vendor_sobjectiz.Mchain.Demand.{Demand}
use android_vendor_sobjectiz.Mchain.Queue.{QueueOps, QueueLaws}

pub record LimitedDynamicQueue : Type 0 where
  pub queue : List Demand
  pub max_size : ℕ

pub make : ℕ → LimitedDynamicQueue
make max_size = record { queue = []; max_size = max_size }

is_full : LimitedDynamicQueue → Bool
is_full q = q.max_size == length q.queue

is_empty : LimitedDynamicQueue → Bool
is_empty q = is_nil q.queue

front : LimitedDynamicQueue → Result Demand
front q = elim q.queue [ [] ↦ err msg_chain_is_empty | d ∷ ds ↦ ok d ]

pop_front : LimitedDynamicQueue → Result LimitedDynamicQueue
pop_front q = elim q.queue [ [] ↦ err msg_chain_is_empty | d ∷ ds ↦ ok (record q { queue = ds }) ]

push_back : Demand → LimitedDynamicQueue → Result LimitedDynamicQueue
unfolding is_full
push_back d q =
    if is_full q then err msg_chain_is_full else ok (record q { queue = q.queue ++ d ∷ [] })

size : LimitedDynamicQueue → ℕ
size q = length q.queue

unfoldable pub ops : QueueOps LimitedDynamicQueue
unfolding is_full is_empty front pop_front push_back size
ops = record {
  is_full = is_full;
  is_empty = is_empty;
  front = front;
  pop_front = pop_front;
  push_back = push_back;
  size = size;
}

abbrev IsBounded : LimitedDynamicQueue → Type 0
IsBounded q = length q.queue ≤ q.max_size

pub laws : QueueLaws ops
unfolding ops
laws = record {
  IsValid = IsBounded;
  contents = λ q. q.queue;
  limit = λ q. some q.max_size;
  is_full_lem = λ q v. refl;
  is_empty_lem = λ q v. refl;
  size_lem = λ q v. refl;
  front_lem = λ q d ds v e. ground (arith, e);
  pop_front_lem =
      λ q d ds v e. (record q { queue = ds }, ground (arith, e), ground (arith, e), refl, refl);
  push_back_lem = λ q d v e. (
    record q { queue = q.queue ++ d ∷ [] },
    ground (arith, e),
    ground (arith, e, length-append q.queue (d ∷ [])),
    refl,
    refl,
  );
  front_empty = λ q v e. ground (arith, e);
  pop_front_empty = λ q v e. ground (arith, e);
  push_back_full = λ q d v e. ground (arith, e);
}

-- A new queue is valid, empty and limited by its size.
pub make-empty :
    (m : ℕ) → laws.IsValid (make m) × (laws.contents (make m) ≡ []) × (laws.limit (make m) ≡ some m)
unfolding laws make
make-empty m = (omega arith, refl, refl)
