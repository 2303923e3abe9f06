-- ===== src/Mchain/Queue.antt =====
-- so_5/rt/impl/h/mchain_details.hpp: what `mchain_template` asks of its parameter `QUEUE`, as a
-- record of operations, and the promise of such a queue, as laws over the list of its demands.
use android_vendor_sobjectiz.Common.{
  ℕ, ◌≡◌, ◌==◌, Bool, true, false, Option, none, some, List, [], ◌∷◌, ◌++◌, length, is_nil, Result,
  ok, err, msg_chain_is_empty, msg_chain_is_full,
}
use android_vendor_sobjectiz.Mchain.Demand.{Demand}
pub mod Unlimited
pub mod LimitedDynamic
pub mod Preallocated
pub mod Refinement

pub record QueueOps (Q : Type 0) : Type 0 where
  pub is_full : Q → Bool
  pub is_empty : Q → Bool
  pub front : Q → Result Demand
  pub pop_front : Q → Result Q
  pub push_back : Demand → Q → Result Q
  pub size : Q → ℕ

-- A queue without a limit is never full.
abbrev pub at_limit : Option ℕ → ℕ → Bool
at_limit none n = false
at_limit (some m) n = m == n

pub record QueueLaws {Q : Type 0} (ops : QueueOps Q) : Type 1 where
  pub IsValid : Q → Type 0
  pub contents : Q → List Demand
  pub limit : Q → Option ℕ
  pub is_full_lem : (q : Q) → IsValid q → ops.is_full q ≡ at_limit (limit q) (length (contents q))
  pub is_empty_lem : (q : Q) → IsValid q → ops.is_empty q ≡ is_nil (contents q)
  pub size_lem : (q : Q) → IsValid q → ops.size q ≡ length (contents q)
  pub front_lem :
      (q : Q) (d : Demand) (ds : List Demand) → IsValid q → contents q ≡ d ∷ ds → ops.front q ≡ ok d
  pub pop_front_lem :
      (q : Q) (d : Demand) (ds : List Demand)
      → IsValid q
      → contents q ≡ d ∷ ds
      → (q' : Q) × (ops.pop_front q ≡ ok q')
        × IsValid q'
        × (contents q' ≡ ds)
        × (limit q' ≡ limit q)
  pub push_back_lem :
      (q : Q) (d : Demand)
      → IsValid q
      → ops.is_full q ≡ false
      → (q' : Q) × (ops.push_back d q ≡ ok q')
        × IsValid q'
        × (contents q' ≡ contents q ++ d ∷ [])
        × (limit q' ≡ limit q)
  pub front_empty : (q : Q) → IsValid q → contents q ≡ [] → ops.front q ≡ err msg_chain_is_empty
  pub pop_front_empty :
      (q : Q) → IsValid q → contents q ≡ [] → ops.pop_front q ≡ err msg_chain_is_empty
  pub push_back_full :
      (q : Q) (d : Demand)
      → IsValid q
      → ops.is_full q ≡ true
      → ops.push_back d q ≡ err msg_chain_is_full
