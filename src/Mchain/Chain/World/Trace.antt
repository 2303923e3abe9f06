-- ===== src/Mchain/Chain/World/Trace.antt =====
-- mchain_template: what the trace of each part of an operation says of the queue.
use android_vendor_sobjectiz.Common.{
  ℕ, ◌≡◌, refl, ap, ap₂, ◌∙◌, Bool, true, false, if◌then◌else◌, List, [], ◌∷◌, ◌++◌, map,
  append-nil,
}
use android_vendor_sobjectiz.Mchain.Demand.{Demand, Params}
use android_vendor_sobjectiz.Mchain.Queue.{QueueOps}
use android_vendor_sobjectiz.Mchain.Chain.{
  Chain, Signal, stored, extracted, overflow_remove_oldest, demand_drop_on_close,
  overflow_drop_newest, overflow_throw_exception, underflow_one, underflow_all, overflow_all,
  not_empty, select_case, wake_receivers, needs_wakeup,
}
use android_vendor_sobjectiz.Mchain.Chain.World.{World, settle, stay, stored_of, left_of}
use android_vendor_sobjectiz.Mchain.Chain.World.Settle.{Before, nothing, removed, close_signals}

-- The trace `t` brings `ins` into the queue and takes `outs` from it.
pub record Moves (ins outs : List Demand) (t : List Signal) : Type 0 where
  pub ins_lem : stored_of t ≡ ins
  pub outs_lem : left_of t ≡ outs

pub Moves-nil : Moves [] [] []
unfolding stored_of left_of
Moves-nil = record { ins_lem = refl; outs_lem = refl }

pub stored_of-append : (t u : List Signal) → stored_of (t ++ u) ≡ stored_of t ++ stored_of u
unfolding stored_of
stored_of-append [] u = refl
stored_of-append (stored d ∷ t) u = ap (◌∷◌ d) (stored_of-append t u)
stored_of-append (_ ∷ t) u = stored_of-append t u

pub left_of-append : (t u : List Signal) → left_of (t ++ u) ≡ left_of t ++ left_of u
unfolding left_of
left_of-append [] u = refl
left_of-append (extracted d ∷ t) u = ap (◌∷◌ d) (left_of-append t u)
left_of-append (overflow_remove_oldest d ∷ t) u = ap (◌∷◌ d) (left_of-append t u)
left_of-append (demand_drop_on_close d ∷ t) u = ap (◌∷◌ d) (left_of-append t u)
left_of-append (_ ∷ t) u = left_of-append t u

pub Moves-append :
    {ins outs ins' outs' : List Demand} (t u : List Signal)
    → Moves ins outs t
    → Moves ins' outs' u
    → Moves (ins ++ ins') (outs ++ outs') (t ++ u)
Moves-append t u m n = record {
  ins_lem = stored_of-append t u ∙ ap₂ ◌++◌ m.ins_lem n.ins_lem;
  outs_lem = left_of-append t u ∙ ap₂ ◌++◌ m.outs_lem n.outs_lem;
}

-- Signals that are no calls of the tracing base.
Moves-select : (l : List ℕ) → Moves [] [] (map select_case l)
unfolding stored_of left_of
Moves-select [] = record { ins_lem = refl; outs_lem = refl }
Moves-select (s ∷ l) =
    let m = Moves-select l in record { ins_lem = m.ins_lem; outs_lem = m.outs_lem }

Moves-late : (b : Bool) → Moves [] [] (if b then underflow_one ∷ [] else [])
unfolding stored_of left_of
Moves-late true = record { ins_lem = refl; outs_lem = refl }
Moves-late false = record { ins_lem = refl; outs_lem = refl }

Moves-early :
    (was_empty n : Bool) (l : List ℕ)
    → Moves [] []
        (if was_empty then (if n then not_empty ∷ [] else []) ++ map select_case l else [])
unfolding stored_of left_of
Moves-early false n l = record { ins_lem = refl; outs_lem = refl }
Moves-early true true l =
    let m = Moves-select l in record { ins_lem = m.ins_lem; outs_lem = m.outs_lem }
Moves-early true false l = Moves-select l

Moves-stored : (d : Demand) → Moves (d ∷ []) [] (stored d ∷ [])
unfolding stored_of left_of
Moves-stored d = record { ins_lem = refl; outs_lem = refl }

-- What had left the queue before a push.
abbrev pub removed_by : {before : List Signal} → Before before → List Demand
removed_by nothing = []
removed_by (removed x) = x ∷ []

Moves-Before : {before : List Signal} (b : Before before) → Moves [] (removed_by b) before
unfolding stored_of left_of
Moves-Before nothing = record { ins_lem = refl; outs_lem = refl }
Moves-Before (removed x) = record { ins_lem = refl; outs_lem = refl }

pub Moves-wake :
    {Q : Type 0} (ops : QueueOps Q) (p : Params) (d : Demand) {before : List Signal}
    (was_empty : Bool) (c : Chain Q) (w : World Q) (b : Before before)
    → Moves (d ∷ []) (removed_by b) (settle stay w (wake_receivers ops p d before was_empty c)).1
unfolding settle wake_receivers
Moves-wake ops p d {before} was_empty c w b = record {
  ins_lem = all.ins_lem;
  outs_lem = all.outs_lem ∙ append-nil (removed_by b);
}
  where
    early : List Signal
    early =
        if was_empty
        then (if p.not_empty_notificator then not_empty ∷ [] else [])
          ++ map select_case c.select_tail
        else []

    late : List Signal
    late = if needs_wakeup ops c then underflow_one ∷ [] else []

    all : Moves (d ∷ []) (removed_by b ++ []) (before ++ (stored d ∷ (early ++ late)))
    all = Moves-append before (stored d ∷ (early ++ late)) (Moves-Before b) (
        Moves-append (stored d ∷ []) (early ++ late) (Moves-stored d) (
          Moves-append early late (Moves-early was_empty p.not_empty_notificator c.select_tail)
            (Moves-late (needs_wakeup ops c))))

pub Moves-extracted :
    (d : Demand) (b : Bool)
    → Moves [] (d ∷ []) (extracted d ∷ (if b then overflow_all ∷ [] else []))
unfolding stored_of left_of
Moves-extracted d true = record { ins_lem = refl; outs_lem = refl }
Moves-extracted d false = record { ins_lem = refl; outs_lem = refl }

pub Moves-overflow_drop_newest : Moves [] [] (overflow_drop_newest ∷ [])
unfolding stored_of left_of
Moves-overflow_drop_newest = record { ins_lem = refl; outs_lem = refl }

pub Moves-overflow_throw_exception : Moves [] [] (overflow_throw_exception ∷ [])
unfolding stored_of left_of
Moves-overflow_throw_exception = record { ins_lem = refl; outs_lem = refl }

Moves-drop : (l : List Demand) → Moves [] l (map demand_drop_on_close l)
unfolding stored_of left_of
Moves-drop [] = record { ins_lem = refl; outs_lem = refl }
Moves-drop (d ∷ l) =
    let m = Moves-drop l in record { ins_lem = m.ins_lem; outs_lem = ap (◌∷◌ d) m.outs_lem }

Moves-ends :
    (nobody was_full : Bool)
    → Moves [] [] (
        (if nobody then [] else underflow_all ∷ []) ++ (if was_full then overflow_all ∷ [] else []))
unfolding stored_of left_of
Moves-ends true true = record { ins_lem = refl; outs_lem = refl }
Moves-ends true false = record { ins_lem = refl; outs_lem = refl }
Moves-ends false true = record { ins_lem = refl; outs_lem = refl }
Moves-ends false false = record { ins_lem = refl; outs_lem = refl }

Moves-cases :
    (now_empty : Bool) (cases : List ℕ)
    → Moves [] [] (if now_empty then map select_case cases else [])
Moves-cases true cases = Moves-select cases
Moves-cases false cases = Moves-nil

pub Moves-close :
    (l : List Demand) (now_empty : Bool) (cases : List ℕ) (nobody was_full : Bool)
    → Moves [] l (map demand_drop_on_close l ++ close_signals now_empty cases nobody was_full)
Moves-close l now_empty cases nobody was_full = record {
  ins_lem = all.ins_lem;
  outs_lem = all.outs_lem ∙ append-nil l;
}
  where
    all :
        Moves []
          (l ++ [])
          (map demand_drop_on_close l ++ close_signals now_empty cases nobody was_full)
    all =
        Moves-append (map demand_drop_on_close l) _ (Moves-drop l)
          (Moves-append _ _ (Moves-cases now_empty cases) (Moves-ends nobody was_full))
