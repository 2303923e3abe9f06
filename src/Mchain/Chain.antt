-- ===== src/Mchain/Chain.antt =====
-- so_5/rt/impl/h/mchain_details.hpp: mchain_template over any demand queue. A wait on a condition
-- variable cuts an operation in two: the part before it ends in `sleeps`, and the part after it
-- starts from the chain as the thread finds it when it holds the lock again. The last evaluation of
-- the wait's predicate is there the first test of the second part. The calls of the tracing base and
-- the signals to condition variables, to the not-empty notificator and to select cases are listed in
-- the order in which they are made.
use mathlib.Core.List.{List}
use android_vendor_sobjectiz.Common.{
  ℕ, zero, suc, ◌+◌, ◌==◌, leb, dec_size, if◌then◌else◌, Bool, true, false, not, ◌&&◌, Option, none,
  some, [], ◌∷◌, ◌++◌, map, RetCode, ok, err, msg_chain_overflow,
}
use android_vendor_sobjectiz.Mchain.Demand.{
  Demand, Params, OverflowReaction, abort_app, throw_exception, drop_newest, remove_oldest,
  ExtractionStatus, no_messages, msg_extracted, chain_closed, CloseMode, drop_content,
  retain_content,
}
use android_vendor_sobjectiz.Mchain.Queue.{QueueOps}
pub mod Outcomes
pub mod LateStore
pub mod World

pub data Status : Type 0 where
  open_chain closed_chain : Status

abbrev pub is_closed : Status → Bool
is_closed open_chain = false
is_closed closed_chain = true

-- The select cases that wait on the chain, the one at `m_select_tail` first.
pub record Chain (Q : Type 0) : Type 0 where
  pub status : Status
  pub queue : Q
  pub threads_to_wakeup : ℕ
  pub select_tail : List ℕ

-- The first six are calls of the tracing base, of which the queues' demands are kept.
pub data Signal : Type 0 where
  stored extracted overflow_remove_oldest demand_drop_on_close : Demand → Signal
  overflow_drop_newest overflow_throw_exception : Signal
  underflow_one underflow_all overflow_all not_empty : Signal
  select_case : ℕ → Signal

-- How a part of an operation ends, with a result of type `R` where it returns.
pub data Outcome (Q R : Type 0) : Type 0 where
  returns : R → Chain Q → List Signal → Outcome Q R
  throws : RetCode → Chain Q → List Signal → Outcome Q R
  sleeps : Chain Q → Outcome Q R
  aborts : Outcome Q R

abbrev pub make : {Q : Type 0} → Q → Chain Q
make q = record { status = open_chain; queue = q; threads_to_wakeup = 0; select_tail = [] }

module _ {Q : Type 0} (ops : QueueOps Q) where
  -- notify_multi_chain_select_ops: the cases leave the chain and are notified, from the tail on.
  abbrev notify_multi_chain_select_ops : Chain Q → Chain Q × List Signal
  notify_multi_chain_select_ops c = (record c { select_tail = [] }, map select_case c.select_tail)

  -- `m_threads_to_wakeup && m_threads_to_wakeup >= m_queue.size()`
  abbrev needs_wakeup : Chain Q → Bool
  needs_wakeup c = not (c.threads_to_wakeup == 0) && leb (ops.size c.queue) c.threads_to_wakeup

  -- The end of a push: who is told of the stored demand. `before` is what was signalled earlier.
  pub wake_receivers : Params → Demand → List Signal → Bool → Chain Q → Outcome Q (Unit {0})
  wake_receivers p d before was_empty c =
      let (told, cases) = notify_multi_chain_select_ops c in
      let notified = if p.not_empty_notificator then not_empty ∷ [] else [] in
      let early = if was_empty then notified ++ cases else [] in
      let late = if needs_wakeup c then underflow_one ∷ [] else [] in
      returns tt (if was_empty then told else c) (before ++ (stored d ∷ (early ++ late)))

  pub push_demand : Params → Demand → List Signal → Chain Q → Outcome Q (Unit {0})
  push_demand p d before c = elim (ops.push_back d c.queue) [
    | ok q ↦ wake_receivers p d before (ops.is_empty c.queue) (record c { queue = q })
    | err e ↦ throws e c before
  ]

  -- The reaction to a queue that is still full. The argument `m_queue.front()` of the tracing call is
  -- computed whether or not there is tracing.
  pub react : Params → OverflowReaction → Demand → Chain Q → Outcome Q (Unit {0})
  react p drop_newest d c = returns tt c (overflow_drop_newest ∷ [])
  react p remove_oldest d c = elim (ops.front c.queue) [
    | err e ↦ throws e c []
    | ok oldest ↦ elim (ops.pop_front c.queue) [
      | ok q ↦ push_demand p d (overflow_remove_oldest oldest ∷ []) (record c { queue = q })
      | err e ↦ throws e c (overflow_remove_oldest oldest ∷ [])
    ]
  ]
  react p throw_exception d c = throws msg_chain_overflow c (overflow_throw_exception ∷ [])
  react p abort_app d c = aborts

  -- try_to_store_message_to_queue after the wait on a full queue, or without one.
  pub store_resume : Params → Demand → Chain Q → Outcome Q (Unit {0})
  store_resume p d c =
      if ops.is_full c.queue then react p p.overflow_reaction d c else push_demand p d [] c

  -- try_to_store_message_to_queue up to the wait, and whole if there is no wait.
  pub store : Params → Demand → Chain Q → Outcome Q (Unit {0})
  store p d c =
      if is_closed c.status
      then returns tt c []
      else if ops.is_full c.queue && p.overflow_timeout_defined
      then sleeps c
      else store_resume p d c

  pub extract_demand_from_not_empty_queue : Chain Q → Outcome Q (ExtractionStatus × Option Demand)
  extract_demand_from_not_empty_queue c =
      let was_full = ops.is_full c.queue in
      elim (ops.front c.queue) [
        | err e ↦ throws e c []
        | ok d ↦ elim (ops.pop_front c.queue) [
          | err e ↦ throws e c []
          | ok q ↦
              returns (msg_extracted, some d) (record c { queue = q })
                (extracted d ∷ (if was_full then overflow_all ∷ [] else []))
        ]
      ]

  -- extract up to the wait on an empty queue, and whole if there is no wait.
  pub extract : Chain Q → Outcome Q (ExtractionStatus × Option Demand)
  extract c =
      if ops.is_empty c.queue
      then if is_closed c.status
        then returns (chain_closed, none) c []
        else sleeps (record c { threads_to_wakeup = c.threads_to_wakeup + 1 })
      else extract_demand_from_not_empty_queue c

  -- extract after the wait.
  pub extract_resume : Chain Q → Outcome Q (ExtractionStatus × Option Demand)
  extract_resume c =
      let c' = record c { threads_to_wakeup = dec_size c.threads_to_wakeup } in
      if ops.is_empty c.queue
      then returns (if is_closed c.status then chain_closed else no_messages, none) c' []
      else extract_demand_from_not_empty_queue c'

  -- The drop loop of `close`: each round traces and removes one demand. The fuel is the queue's size.
  pub drop_all : ℕ → Q → Q × List Signal
  drop_all zero q = (q, [])
  drop_all (suc fuel) q = if ops.is_empty q then (q, []) else elim (ops.front q) [
    | err e ↦ (q, [])
    | ok d ↦ elim (ops.pop_front q) [
      | ok q' ↦ let rest = drop_all fuel q' in (rest.0, demand_drop_on_close d ∷ rest.1)
      | err e ↦ (q, [])
    ]
  ]

  pub drop_by_mode : CloseMode → Q → Q × List Signal
  drop_by_mode drop_content q = drop_all (ops.size q) q
  drop_by_mode retain_content q = (q, [])

  pub close : CloseMode → Chain Q → Outcome Q (Unit {0})
  close mode c =
      if is_closed c.status
      then returns tt c []
      else let was_full = ops.is_full c.queue in
        let (q, dropped) = drop_by_mode mode c.queue in
        let c' = record c { status = closed_chain; queue = q } in
        let (told, cases) = notify_multi_chain_select_ops c' in
        let now_empty = ops.is_empty q in
        returns tt (if now_empty then told else c') (
          dropped
          ++ ((if now_empty then cases else [])
              ++ ((if c.threads_to_wakeup == 0 then [] else underflow_all ∷ [])
                  ++ (if was_full then overflow_all ∷ [] else []))))

  -- extract for a select case: an empty open chain queues the case.
  pub extract_for_select : ℕ → Chain Q → Outcome Q (ExtractionStatus × Option Demand)
  extract_for_select s c =
      if ops.is_empty c.queue
      then if is_closed c.status
        then returns (chain_closed, none) c []
        else returns (no_messages, none) (record c { select_tail = s ∷ c.select_tail }) []
      else extract_demand_from_not_empty_queue c

-- The search of remove_from_select: the first case that is `s` is unlinked.
unlink : ℕ → List ℕ → List ℕ
unlink s [] = []
unlink s (c ∷ cs) = if c == s then cs else c ∷ unlink s cs

pub remove_from_select : {Q : Type 0} → ℕ → Chain Q → Chain Q
unfolding unlink
remove_from_select s c = record c { select_tail = unlink s c.select_tail }
