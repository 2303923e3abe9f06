-- ===== src/Mchain/Queue/Refinement.antt =====
-- The three demand queues of a chain against one abstract first-in first-out queue: whatever calls are
-- made, the answers and the exceptions are those of a list with a limit.
use android_vendor_sobjectiz.Common.{
  ℕ, ◌≡◌, refl, sym, ◌∙◌, ap, ap₂, Bool, Bool-cases, if◌then◌else◌, Option, some, List, [], ◌∷◌,
  ◌++◌, length, is_nil, RetCode, Result, ok, err, msg_chain_is_empty, msg_chain_is_full, arith, inl,
  inr,
}
use android_vendor_sobjectiz.Mchain.Demand.{Demand}
use android_vendor_sobjectiz.Mchain.Queue.{QueueOps, QueueLaws, at_limit}
use android_vendor_sobjectiz.Mchain.Queue.LimitedDynamic
use android_vendor_sobjectiz.Mchain.Queue.Preallocated
use android_vendor_sobjectiz.Mchain.Queue.Preallocated.Laws

pub data Call : Type 0 where
  is_full is_empty size front pop_front : Call
  push_back : Demand → Call

pub data Reply : Type 0 where
  flag : Bool → Reply
  number : ℕ → Reply
  demand : Demand → Reply
  done : Reply
  thrown : RetCode → Reply

-- The abstract queue: its demands, the oldest first, and its limit.
pub record Fifo : Type 0 where
  pub items : List Demand
  pub limit : Option ℕ

pub fifo_step : Fifo → Call → Fifo × Reply
fifo_step f is_full = (f, flag (at_limit f.limit (length f.items)))
fifo_step f is_empty = (f, flag (is_nil f.items))
fifo_step f size = (f, number (length f.items))
fifo_step f front = elim f.items [ [] ↦ (f, thrown msg_chain_is_empty) | d ∷ ds ↦ (f, demand d) ]
fifo_step f pop_front = elim f.items [
  | [] ↦ (f, thrown msg_chain_is_empty)
  | d ∷ ds ↦ (record f { items = ds }, done)
]
fifo_step f (push_back d) =
    if at_limit f.limit (length f.items)
    then (f, thrown msg_chain_is_full)
    else (record f { items = f.items ++ d ∷ [] }, done)

pub fifo_run : Fifo → List Call → List Reply
fifo_run f [] = []
fifo_run f (c ∷ cs) = (fifo_step f c).1 ∷ fifo_run (fifo_step f c).0 cs

abbrev after {ℓ} : {Q : Type ℓ} → Q → Result Q → Q × Reply
after q (ok q') = (q', done)
after q (err c) = (q, thrown c)

abbrev answer : Result Demand → Reply
answer (ok d) = demand d
answer (err c) = thrown c

module _ {Q : Type 0} (ops : QueueOps Q) where
  pub call_step : Q → Call → Q × Reply
  call_step q is_full = (q, flag (ops.is_full q))
  call_step q is_empty = (q, flag (ops.is_empty q))
  call_step q size = (q, number (ops.size q))
  call_step q front = (q, answer (ops.front q))
  call_step q pop_front = after q (ops.pop_front q)
  call_step q (push_back d) = after q (ops.push_back d q)

  pub call_run : Q → List Call → List Reply
  call_run q [] = []
  call_run q (c ∷ cs) = (call_step q c).1 ∷ call_run (call_step q c).0 cs

module _ {Q : Type 0} {ops : QueueOps Q} (laws : QueueLaws ops) where
  abbrev view : Q → Fifo
  view q = record { items = laws.contents q; limit = laws.limit q }

  -- A call on a valid queue answers as the abstract queue does, and leaves a valid queue.
  abbrev Agrees : Q → Q × Reply → Fifo × Reply → Type 0
  Agrees q r s = laws.IsValid r.0 × (view r.0 ≡ s.0) × (r.1 ≡ s.1)

  pop_front-Agrees :
      (q : Q) (l : List Demand)
      → laws.IsValid q
      → laws.contents q ≡ l
      → Agrees q (call_step ops q pop_front) (fifo_step (view q) pop_front)
  unfolding call_step fifo_step
  pop_front-Agrees q [] v e = rw (laws.pop_front_empty q v e, e) (v, ground arith, refl)
  pop_front-Agrees q (d ∷ ds) v e =
      let (q', pops, v', rest, same) = laws.pop_front_lem q d ds v e in
      rw (pops, e) (v', ground (arith, rest, same), refl)

  front-Agrees :
      (q : Q) (l : List Demand)
      → laws.IsValid q
      → laws.contents q ≡ l
      → Agrees q (call_step ops q front) (fifo_step (view q) front)
  unfolding call_step fifo_step
  front-Agrees q [] v e = rw (laws.front_empty q v e, e) (v, ground arith, refl)
  front-Agrees q (d ∷ ds) v e = rw (laws.front_lem q d ds v e, e) (v, ground arith, refl)

  push_back-Agrees :
      (q : Q) (d : Demand)
      → laws.IsValid q
      → Agrees q (call_step ops q (push_back d)) (fifo_step (view q) (push_back d))
  unfolding call_step fifo_step
  push_back-Agrees q d v = elim (Bool-cases (ops.is_full q)) [
    | inl full ↦ rw (laws.push_back_full q d v full, ← laws.is_full_lem q v, full) (v, refl, refl)
    | inr room ↦
        let (q', pushes, v', more, same) = laws.push_back_lem q d v room in
        rw (pushes, ← laws.is_full_lem q v, room) (v', ground (arith, more, same), refl)
  ]

  step-Agrees :
      (q : Q) (c : Call) → laws.IsValid q → Agrees q (call_step ops q c) (fifo_step (view q) c)
  unfolding call_step fifo_step
  step-Agrees q is_full v = (v, refl, ap flag (laws.is_full_lem q v))
  step-Agrees q is_empty v = (v, refl, ap flag (laws.is_empty_lem q v))
  step-Agrees q size v = (v, refl, ap number (laws.size_lem q v))
  step-Agrees q front v = front-Agrees q (laws.contents q) v refl
  step-Agrees q pop_front v = pop_front-Agrees q (laws.contents q) v refl
  step-Agrees q (push_back d) v = push_back-Agrees q d v

  pub run-fifo_run :
      (q : Q) (cs : List Call) → laws.IsValid q → call_run ops q cs ≡ fifo_run (view q) cs
  unfolding call_run fifo_run
  run-fifo_run q [] v = refl
  run-fifo_run q (c ∷ cs) v =
      let (v', same, reply) = step-Agrees q c v in
      ap₂ ◌∷◌ reply (run-fifo_run (call_step ops q c).0 cs v' ∙ ap (λ f. fifo_run f cs) same)

-- The ring of a preallocated chain: a new one with room for `m` demands answers every sequence of
-- calls as an empty list with limit `m` does, exceptions included.
pub preallocated-fifo_run :
    (m : ℕ) (cs : List Call)
    → call_run Preallocated.ops (Preallocated.make m) cs
      ≡ fifo_run (record { items = []; limit = some m }) cs
preallocated-fifo_run m cs =
    let (v, items, limit) = Laws.make-empty m in
    run-fifo_run Laws.laws (Preallocated.make m) cs v
    ∙ ap₂ (λ l k. fifo_run (record { items = l; limit = k }) cs) items limit

-- The preallocated and the dynamic storage of the same limit cannot be told apart: every sequence of
-- calls on a new one gets the same replies from both, exceptions included.
pub preallocated-dynamic :
    (m : ℕ) (cs : List Call)
    → call_run Preallocated.ops (Preallocated.make m) cs
      ≡ call_run LimitedDynamic.ops (LimitedDynamic.make m) cs
preallocated-dynamic m cs =
    let (v, items, limit) = LimitedDynamic.make-empty m in
    preallocated-fifo_run m cs
    ∙ sym (
        run-fifo_run LimitedDynamic.laws (LimitedDynamic.make m) cs v
        ∙ ap₂ (λ l k. fifo_run (record { items = l; limit = k }) cs) items limit)
