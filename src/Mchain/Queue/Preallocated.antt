-- ===== src/Mchain/Queue/Preallocated.antt =====
-- so_5/rt/impl/h/mchain_details.hpp: limited_preallocated_demand_queue, a ring over a vector.
use android_vendor_sobjectiz.Common.{
  ℕ, ◌≡◌, ◌+◌, ◌-◌, ◌%◌, refl, ◌==◌, if◌then◌else◌, Bool, List, Result, ok, err, get_or, set,
  replicate, dec_size, msg_chain_is_empty, msg_chain_is_full,
}
use android_vendor_sobjectiz.Mchain.Demand.{Demand, default_demand}
use android_vendor_sobjectiz.Mchain.Queue.{QueueOps}
pub mod Ring
pub mod Laws

pub record PreallocatedQueue : Type 0 where
  pub storage : List Demand
  pub max_size : ℕ
  pub head : ℕ
  pub count : ℕ

unfoldable pub make : ℕ → PreallocatedQueue
make max_size = record {
  storage = replicate max_size default_demand;
  max_size = max_size;
  head = 0;
  count = 0;
}

is_full : PreallocatedQueue → Bool
is_full q = q.max_size == q.count

is_empty : PreallocatedQueue → Bool
is_empty q = 0 == q.count

-- A read of the vector: outside of it, which does not happen, the model gives a default demand.
front : PreallocatedQueue → Result Demand
unfolding is_empty
front q = if is_empty q then err msg_chain_is_empty else ok (get_or q.storage q.head default_demand)

pop_front : PreallocatedQueue → Result PreallocatedQueue
unfolding is_empty
pop_front q =
    if is_empty q
    then err msg_chain_is_empty
    else ok (record q {
      storage = set q.storage q.head default_demand;
      head = (q.head + 1) % q.max_size;
      count = dec_size q.count;
    })

push_back : Demand → PreallocatedQueue → Result PreallocatedQueue
unfolding is_full
push_back d q =
    if is_full q
    then err msg_chain_is_full
    else ok (record q {
      storage = set q.storage ((q.head + q.count) % q.max_size) d;
      count = q.count + 1;
    })

size : PreallocatedQueue → ℕ
size q = q.count

unfoldable pub ops : QueueOps PreallocatedQueue
unfolding is_full is_empty front pop_front push_back size
ops = record {
  is_full = is_full;
  is_empty = is_empty;
  front = front;
  pop_front = pop_front;
  push_back = push_back;
  size = size;
}
