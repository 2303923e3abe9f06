-- ===== src/Mchain/Queue/Unlimited.antt =====
-- so_5/rt/impl/h/mchain_details.hpp: unlimited_demand_queue. `std::deque` is a list, front first.
use android_vendor_sobjectiz.Common.{
  ℕ, refl, Bool, false, none, List, [], ◌∷◌, ◌++◌, length, is_nil, Result, ok, err,
  msg_chain_is_empty, arith,
}
use android_vendor_sobjectiz.Mchain.Demand.{Demand}
use android_vendor_sobjectiz.Mchain.Queue.{QueueOps, QueueLaws}

abbrev pub UnlimitedQueue : Type 0
UnlimitedQueue = List Demand

is_full : UnlimitedQueue → Bool
is_full q = false

is_empty : UnlimitedQueue → Bool
is_empty q = is_nil q

front : UnlimitedQueue → Result Demand
front [] = err msg_chain_is_empty
front (d ∷ ds) = ok d

pop_front : UnlimitedQueue → Result UnlimitedQueue
pop_front [] = err msg_chain_is_empty
pop_front (d ∷ ds) = ok ds

push_back : Demand → UnlimitedQueue → Result UnlimitedQueue
push_back d q = ok (q ++ d ∷ [])

size : UnlimitedQueue → ℕ
size q = length q

unfoldable pub ops : QueueOps UnlimitedQueue
unfolding is_full is_empty front pop_front push_back size
ops = record {
  is_full = is_full;
  is_empty = is_empty;
  front = front;
  pop_front = pop_front;
  push_back = push_back;
  size = size;
}

-- The unlimited queue is a first-in first-out queue that is never full: `front` and `pop_front` act
-- on the oldest demand and throw on an empty queue, and `push_back` adds behind the newest.
pub laws : QueueLaws ops
unfolding ops
laws = record {
  IsValid = λ q. Unit;
  contents = λ q. q;
  limit = λ q. none;
  is_full_lem = λ q v. refl;
  is_empty_lem = λ q v. refl;
  size_lem = λ q v. refl;
  front_lem = λ q d ds v e. ground (arith, e);
  pop_front_lem = λ q d ds v e. (ds, ground (arith, e), tt, refl, refl);
  push_back_lem = λ q d v e. (q ++ d ∷ [], refl, tt, refl, refl);
  front_empty = λ q v e. ground (arith, e);
  pop_front_empty = λ q v e. ground (arith, e);
  push_back_full = λ q d v e. cc;
}
