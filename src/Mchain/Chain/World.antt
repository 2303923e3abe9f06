-- ===== src/Mchain/Chain/World.antt =====
-- mchain_template with the threads that use it: each action is a part of an operation that a thread
-- runs while it holds the chain's lock, so a list of actions is an interleaving of threads. The
-- condition variables behave as the C++ standard says: `notify_one` wakes a thread that waits, if
-- there is one, `notify_all` wakes all of them, and a woken thread that finds its predicate false
-- waits again. A thread may also stop waiting because of its timeout.
use android_vendor_sobjectiz.Common.{
  ℕ, zero, suc, ◌+◌, ◌-◌, ◌==◌, if◌then◌else◌, Bool, true, false, not, ◌&&◌, Option, none, some,
  List, [], ◌∷◌, ◌++◌,
}
use android_vendor_sobjectiz.Mchain.Demand.{Demand, Params, CloseMode}
use android_vendor_sobjectiz.Mchain.Queue.{QueueOps}
use android_vendor_sobjectiz.Mchain.Chain.{
  Chain, Signal, stored, extracted, overflow_remove_oldest, demand_drop_on_close, underflow_one,
  underflow_all, overflow_all, Outcome, returns, throws, sleeps, aborts, is_closed, make, store,
  store_resume, extract, extract_resume, close, extract_for_select, remove_from_select,
}
pub mod Settle
pub mod Wakeups
pub mod Trace
pub mod Invariant
pub mod Stores
pub mod Extracts
pub mod Closes
pub mod Runs
mod Examples

-- The threads asleep on the empty chain, and those of them that were notified and have not run yet;
-- the same for the threads asleep on the full chain, each with the demand that it brings.
pub record World (Q : Type 0) : Type 0 where
  pub chain : Chain Q
  pub receivers_waiting : ℕ
  pub receivers_notified : ℕ
  pub senders_waiting : List Demand
  pub senders_notified : List Demand
  pub aborted : Bool

pub data Action : Type 0 where
  send : Demand → Action
  sender_wakes sender_times_out : ℕ → Action
  receive receiver_wakes receiver_times_out : Action
  closes : CloseMode → Action
  selects unselects : ℕ → Action

unfoldable pub start : {Q : Type 0} → Q → World Q
start q = record {
  chain = make q;
  receivers_waiting = 0;
  receivers_notified = 0;
  senders_waiting = [];
  senders_notified = [];
  aborted = false;
}

-- The thread at a place of the list, and the others.
pub take_nth : ℕ → List Demand → Option (Demand × List Demand)
take_nth i [] = none
take_nth zero (d ∷ ds) = some (d, ds)
take_nth (suc i) (d ∷ ds) = elim (take_nth i ds) [ none ↦ none | some (e, es) ↦ some (e, d ∷ es) ]

pub signal_one : {Q : Type 0} → World Q → World Q
signal_one w = if w.receivers_waiting == 0 then w else record w {
  receivers_waiting = w.receivers_waiting - 1;
  receivers_notified = w.receivers_notified + 1;
}

pub signal : {Q : Type 0} → Signal → World Q → World Q
unfolding signal_one
signal underflow_one w = signal_one w
signal underflow_all w = record w {
  receivers_waiting = 0;
  receivers_notified = w.receivers_notified + w.receivers_waiting;
}
signal overflow_all w = record w {
  senders_waiting = [];
  senders_notified = w.senders_notified ++ w.senders_waiting;
}
signal _ w = w

pub deliver : {Q : Type 0} → List Signal → World Q → World Q
unfolding signal
deliver [] w = w
deliver (s ∷ t) w = deliver t (signal s w)

-- The world after a part of an operation; a thread that goes to sleep is added by `asleep`.
pub settle : {Q R : Type 0} → (World Q → World Q) → World Q → Outcome Q R → World Q × List Signal
unfolding deliver
settle asleep w (returns r c t) = (deliver t (record w { chain = c }), t)
settle asleep w (throws e c t) = (deliver t (record w { chain = c }), t)
settle asleep w (sleeps c) = (asleep (record w { chain = c }), [])
settle asleep w aborts = (record w { aborted = true }, [])

abbrev pub stay : {Q : Type 0} → World Q → World Q
stay w = w

abbrev pub sender_sleeps : {Q : Type 0} → Demand → World Q → World Q
sender_sleeps d w = record w { senders_waiting = d ∷ w.senders_waiting }

abbrev pub receiver_sleeps : {Q : Type 0} → World Q → World Q
receiver_sleeps w = record w { receivers_waiting = suc w.receivers_waiting }

module _ {Q : Type 0} (ops : QueueOps Q) (p : Params) where
  -- A notified thread that finds the queue full in an open chain, or empty in one, waits again.
  pub sender_wakes_with : World Q → Option (Demand × List Demand) → World Q × List Signal
  sender_wakes_with w none = (w, [])
  sender_wakes_with w (some (d, others)) =
      let w' = record w { senders_notified = others } in
      if ops.is_full w.chain.queue && not (is_closed w.chain.status)
      then (sender_sleeps d w', [])
      else settle stay w' (store_resume ops p d w.chain)

  pub sender_times_out_with : World Q → Option (Demand × List Demand) → World Q × List Signal
  sender_times_out_with w none = (w, [])
  sender_times_out_with w (some (d, others)) =
      settle stay (record w { senders_waiting = others }) (store_resume ops p d w.chain)

  pub receiver_wakes_with : World Q → ℕ → World Q × List Signal
  receiver_wakes_with w zero = (w, [])
  receiver_wakes_with w (suc others) =
      let w' = record w { receivers_notified = others } in
      if ops.is_empty w.chain.queue && not (is_closed w.chain.status)
      then (receiver_sleeps w', [])
      else settle stay w' (extract_resume ops w.chain)

  pub receiver_times_out_with : World Q → ℕ → World Q × List Signal
  receiver_times_out_with w zero = (w, [])
  receiver_times_out_with w (suc others) =
      settle stay (record w { receivers_waiting = others }) (extract_resume ops w.chain)

  pub act : World Q → Action → World Q × List Signal
  act w (send d) = settle (sender_sleeps d) w (store ops p d w.chain)
  act w (sender_wakes i) = sender_wakes_with w (take_nth i w.senders_notified)
  act w (sender_times_out i) = sender_times_out_with w (take_nth i w.senders_waiting)
  act w receive = settle receiver_sleeps w (extract ops w.chain)
  act w receiver_wakes = receiver_wakes_with w w.receivers_notified
  act w receiver_times_out = receiver_times_out_with w w.receivers_waiting
  act w (closes mode) = settle stay w (close ops mode w.chain)
  act w (selects s) = settle stay w (extract_for_select ops s w.chain)
  act w (unselects s) = (record w { chain = remove_from_select s w.chain }, [])

  -- Nothing runs in an aborted application.
  pub step : World Q → Action → World Q × List Signal
  unfolding act
  step w a = if w.aborted then (w, []) else act w a

  -- The world after the actions, and all that was traced and signalled.
  pub run : World Q → List Action → World Q × List Signal
  run w [] = (w, [])
  run w (a ∷ as_) = let (w', t) = step w a in let rest = run w' as_ in (rest.0, t ++ rest.1)

-- What a trace says of the queue: the demands that came in and those that left it, in order.
pub stored_of : List Signal → List Demand
stored_of [] = []
stored_of (stored d ∷ t) = d ∷ stored_of t
stored_of (_ ∷ t) = stored_of t

pub left_of : List Signal → List Demand
left_of [] = []
left_of (extracted d ∷ t) = d ∷ left_of t
left_of (overflow_remove_oldest d ∷ t) = d ∷ left_of t
left_of (demand_drop_on_close d ∷ t) = d ∷ left_of t
left_of (_ ∷ t) = left_of t
