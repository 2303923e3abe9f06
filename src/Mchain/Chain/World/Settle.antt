-- ===== src/Mchain/Chain/World/Settle.antt =====
-- mchain_template with its threads: what the signals of a push, an extraction and a close do to the
-- threads that sleep.
use android_vendor_sobjectiz.Common.{
  ℕ, ◌≡◌, refl, ap, ◌∙◌, Bool, true, false, if◌then◌else◌, List, [], ◌∷◌, ◌++◌, map,
}
use android_vendor_sobjectiz.Mchain.Demand.{Demand, Params}
use android_vendor_sobjectiz.Mchain.Queue.{QueueOps}
use android_vendor_sobjectiz.Mchain.Chain.{
  Chain, Signal, stored, not_empty, select_case, underflow_one, underflow_all, overflow_all,
  demand_drop_on_close, overflow_remove_oldest, wake_receivers, needs_wakeup,
}
use android_vendor_sobjectiz.Mchain.Chain.World.{World, signal, signal_one, deliver, settle, stay}

-- What was signalled before a push: nothing, or that the oldest demand was removed.
pub data Before : List Signal → Type 0 where
  nothing : Before []
  removed : (x : Demand) → Before (overflow_remove_oldest x ∷ [])

-- The signals at the end of `close`.
abbrev pub close_signals : Bool → List ℕ → Bool → Bool → List Signal
close_signals now_empty cases nobody was_full =
    (if now_empty then map select_case cases else [])
    ++ ((if nobody then [] else underflow_all ∷ []) ++ (if was_full then overflow_all ∷ [] else []))

module _ {Q : Type 0} where
  pub deliver-append :
      (t u : List Signal) (w : World Q) → deliver (t ++ u) w ≡ deliver u (deliver t w)
  unfolding deliver
  deliver-append [] u w = refl
  deliver-append (s ∷ t) u w = deliver-append t u (signal s w)

  deliver-select : (l : List ℕ) (w : World Q) → deliver (map select_case l) w ≡ w
  unfolding deliver signal
  deliver-select [] w = refl
  deliver-select (s ∷ l) w = deliver-select l w

  pub deliver-drop : (l : List Demand) (w : World Q) → deliver (map demand_drop_on_close l) w ≡ w
  unfolding deliver signal
  deliver-drop [] w = refl
  deliver-drop (d ∷ l) w = deliver-drop l w

  -- The chain after a push to it has been told to the select cases.
  unfoldable pub told : Bool → Chain Q → Chain Q
  told was_empty c = if was_empty then record c { select_tail = [] } else c

  -- The world after a push to a chain that is `c` when the demand is in its queue.
  unfoldable pub after_push : Bool → Chain Q → World Q → World Q
  unfolding told signal_one
  after_push wakes c w =
      if wakes then signal_one (record w { chain = c }) else record w { chain = c }

  deliver-late :
      (b : Bool) (w : World Q)
      → deliver (if b then underflow_one ∷ [] else []) w ≡ (if b then signal_one w else w)
  unfolding deliver signal
  deliver-late true w = refl
  deliver-late false w = refl

  deliver-early :
      (was_empty n : Bool) (l : List ℕ) (w : World Q)
      → deliver
          (if was_empty then (if n then not_empty ∷ [] else []) ++ map select_case l else [])
          w
        ≡ w
  unfolding deliver signal
  deliver-early false n l w = refl
  deliver-early true true l w = deliver-select l w
  deliver-early true false l w = deliver-select l w

  deliver-Before :
      {before : List Signal} (t : List Signal) (w : World Q)
      → Before before
      → deliver (before ++ t) w ≡ deliver t w
  unfolding deliver signal
  deliver-Before t w nothing = refl
  deliver-Before t w (removed x) = refl

  deliver-stored :
      (d : Demand) (t : List Signal) (w : World Q) → deliver (stored d ∷ t) w ≡ deliver t w
  unfolding deliver signal
  deliver-stored d t w = refl

  pub settle-wake :
      (ops : QueueOps Q) (p : Params) (d : Demand) {before : List Signal} (was_empty : Bool)
      (c : Chain Q) (w : World Q)
      → Before before
      → (settle stay w (wake_receivers ops p d before was_empty c)).0
        ≡ after_push (needs_wakeup ops c) (told was_empty c) w
  unfolding settle wake_receivers after_push
  settle-wake ops p d {before} was_empty c w b =
      deliver-Before (stored d ∷ (early ++ late)) w' b
      ∙ deliver-stored d (early ++ late) w'
      ∙ deliver-append early late w'
      ∙ ap (deliver late) (deliver-early was_empty p.not_empty_notificator c.select_tail w')
      ∙ deliver-late (needs_wakeup ops c) w'
    where
      w' : World Q
      w' = record w { chain = told was_empty c }

      early : List Signal
      early =
          if was_empty
          then (if p.not_empty_notificator then not_empty ∷ [] else [])
            ++ map select_case c.select_tail
          else []

      late : List Signal
      late = if needs_wakeup ops c then underflow_one ∷ [] else []

  pub deliver-close :
      (l : List Demand) (now_empty : Bool) (cases : List ℕ) (nobody was_full : Bool) (w : World Q)
      → deliver (map demand_drop_on_close l ++ close_signals now_empty cases nobody was_full) w
        ≡ deliver
            ((if nobody then [] else underflow_all ∷ [])
              ++ (if was_full then overflow_all ∷ [] else []))
            w
  deliver-close l true cases nobody was_full w =
      deliver-append (map demand_drop_on_close l) _ w
      ∙ ap (deliver (close_signals true cases nobody was_full)) (deliver-drop l w)
      ∙ deliver-append (map select_case cases) _ w
      ∙ ap (deliver _) (deliver-select cases w)
  deliver-close l false cases nobody was_full w =
      deliver-append (map demand_drop_on_close l) _ w
      ∙ ap (deliver (close_signals false cases nobody was_full)) (deliver-drop l w)
