-- ===== src/Agents/Switch/Returns.antt =====
-- Going back to a state with a history, after any number of switches outside it.
use mathlib.Core.Path.{subst}
use android_vendor_sobjectiz.Common.{
  ℕ, suc, ◌==◌, some, List, [], ◌∷◌, ◌≡◌, ◌≢◌, ◌<◌, refl, sym, ap, ◌∙◌, arith, inl, inr, Bool-cases,
  false, true,
}
use android_vendor_sobjectiz.Agents.States.{
  Table, State, shallow, deep, level_of, max_deep, enters, actual_state_to_enter,
  update_history_in_parent_states,
}
use android_vendor_sobjectiz.Agents.States.Shape.{
  IsShaped, above_of, Encloses, Encloses-self, level-above, above-lt, above_self,
}
use android_vendor_sobjectiz.Agents.States.Entering.{Leads, actual_state_to_enter-Leads}
use android_vendor_sobjectiz.Agents.States.Paths.{Encloses-count}
use android_vendor_sobjectiz.Agents.States.Remembering.{
  IsSame, IsSame-refl, IsSame-trans, update-IsSame, update-IsShaped, above-same,
}
use android_vendor_sobjectiz.Agents.Switch.{Agent, do_state_switch}
use android_vendor_sobjectiz.Agents.Switch.Histories.{untouched, remembers}

-- Switches to several states, one after the other.
unfoldable pub switch_all : List ℕ → Agent → Agent
switch_all [] a = a
switch_all (s ∷ ss) a = switch_all ss (do_state_switch s a).0

-- States of a table that do not lie inside `u`.
abbrev pub AreOutside : Table → ℕ → List ℕ → Type 0
AreOutside t u [] = Unit
AreOutside t u (s ∷ ss) = (s < t.count) × (Encloses t u s → ⊥) × AreOutside t u ss

AreOutside-same :
    (t t' : Table)
    → IsShaped t
    → IsSame t t'
    → (u : ℕ) (ss : List ℕ) → AreOutside t u ss
    → AreOutside t' u ss
AreOutside-same t t' v same u [] o = tt
AreOutside-same t t' v same u (s ∷ ss) (h, o, os) = (
  omega (arith, same.counts),
  λ e. o (
    omega (arith, same.levels u, same.levels s, e.0),
    sym (above-same t t' v.tree same s (level_of t u) h)
        ∙ (ap (above_of t' s) (sym (same.levels u)) ∙ e.1),
  ),
  AreOutside-same t t' v same u ss os,
)

-- A round of actual_state_to_enter that follows what is remembered, and the last one.
enters_last :
    (n u c : ℕ) (t : Table)
    → 0 < (t.state u).substate_count
    → (t.state u).last_active_substate ≡ some c
    → actual_state_to_enter (suc n) t u ≡ actual_state_to_enter n t c
unfolding actual_state_to_enter
enters_last n u c t h e =
    let composite : ((t.state u).substate_count == 0) ≡ false = ground (arith, h) in
    rw (composite, e, actual_state_to_enter) refl

enters_leaf :
    (n s : ℕ) (t : Table)
    → (t.state s).substate_count ≡ 0
    → actual_state_to_enter (suc n) t s ≡ enters s
unfolding actual_state_to_enter
enters_leaf n s t h =
    let leaf : ((t.state s).substate_count == 0) ≡ true = ground (arith, h) in
    rw (leaf, actual_state_to_enter) refl

record Kept (u : ℕ) (t t' : Table) : Type 0 where
  kept_shaped : IsShaped t'
  kept_same : IsSame t t'
  kept_state : t'.state u ≡ t.state u

switch_all-Kept :
    (u : ℕ) (ss : List ℕ) (a : Agent)
    → IsShaped a.states
    → AreOutside a.states u ss
    → Kept u a.states (switch_all ss a).states
unfolding switch_all do_state_switch
switch_all-Kept u [] a v o = record {
  kept_shaped = v;
  kept_same = IsSame-refl a.states;
  kept_state = refl;
}
switch_all-Kept u (s ∷ ss) a v (h, o, os) =
    let t' : Table = update_history_in_parent_states s a.states in
    let same = update-IsSame s a.states in
    let rest =
      switch_all-Kept u ss (do_state_switch s a).0 (update-IsShaped s a.states v h)
        (AreOutside-same a.states t' v same u ss os) in
    let stays : t'.state u ≡ a.states.state u =
      unfold update_history_in_parent_states in
      untouched s (level_of a.states s) s u a.states v h h (Encloses-self a.states v.tree s) refl
        (λ l e. o (omega (arith, l), e)) in
    record {
      kept_shaped = rest.kept_shaped;
      kept_same = IsSame-trans _ _ _ same rest.kept_same;
      kept_state = rest.kept_state ∙ stays;
    }

module _ (a : Agent) (v : IsShaped a.states) (s u : ℕ) (ss : List ℕ) (h : s < a.states.count)
    (leaf : (a.states.state s).substate_count ≡ 0) (inside : Encloses a.states u s) (ne : u ≢ s)
    (outside : AreOutside a.states u ss) where
  -- The agent after a switch to `s` and then to `ss`.
  abbrev pub later : Agent
  later = switch_all (s ∷ ss) a

  abbrev t' : Table
  t' = update_history_in_parent_states s a.states

  kept : Kept u t' later.states
  unfolding switch_all do_state_switch
  kept =
      switch_all-Kept u ss (do_state_switch s a).0 (update-IsShaped s a.states v h)
        (AreOutside-same a.states t' v (update-IsSame s a.states) u ss outside)

  same : IsSame a.states later.states
  same = IsSame-trans _ _ _ (update-IsSame s a.states) kept.kept_same

  left : level_of a.states u < level_of a.states s
  left = elim (Bool-cases (level_of a.states u == level_of a.states s)) [
    | inl top ↦
        let e : level_of a.states u ≡ level_of a.states s = ground arith in
        absurd (ne (sym inside.1 ∙ (ap (above_of a.states s) e ∙ above_self a.states v.tree s)))
    | inr under ↦ ground (arith, inside.0)
  ]

  composite : 0 < (later.states.state u).substate_count
  composite = rw (same.substates u) (Encloses-count a.states v.tree u s h ne inside)

  remembered :
      ((a.states.state u).state_history ≡ deep
        → (later.states.state u).last_active_substate ≡ some s)
      × ((a.states.state u).state_history ≡ shallow
          → (later.states.state u).last_active_substate
            ≡ some (above_of a.states s (suc (level_of a.states u))))
  remembered =
      let (d, w) = now in
      let last = ap (λ (x : State). x.last_active_substate) kept.kept_state in
      let mode = (update-IsSame s a.states).histories u in
      (λ e. last ∙ d (mode ∙ e), λ e. last ∙ w (mode ∙ e))
    where
      now :
          ((t'.state u).state_history ≡ deep → (t'.state u).last_active_substate ≡ some s)
          × ((t'.state u).state_history ≡ shallow
              → (t'.state u).last_active_substate
                ≡ some (above_of a.states s (suc (level_of a.states u))))
      now =
          unfold update_history_in_parent_states in
          remembers s (level_of a.states s) s u a.states v h h (Encloses-self a.states v.tree s)
            refl left inside.1

  -- A switch to a state without substates that lies inside a state with a deep history, and then any
  -- number of switches to states outside it: to enter the state with the history is to enter the
  -- very state that was left.
  pub switch_all-deep :
      (a.states.state u).state_history ≡ deep
      → actual_state_to_enter max_deep later.states u ≡ enters s
  switch_all-deep e =
      enters_last 15 u s later.states composite (remembered.0 e)
      ∙ enters_leaf 14 s later.states (same.substates s ∙ leaf)

  -- The same with a shallow history: entering the state with the history leads to a state without
  -- substates in its substate around the state that was left, or it throws that there is no initial
  -- substate, and then some state in that substate has substates, but no history and no initial one.
  pub switch_all-shallow :
      (a.states.state u).state_history ≡ shallow
      → Leads later.states
          (above_of a.states s (suc (level_of a.states u)))
          (actual_state_to_enter max_deep later.states u)
  switch_all-shallow e =
      let c = above_of a.states s (suc (level_of a.states u)) in
      let hc = above-lt a.states v.tree s (suc (level_of a.states u)) h (omega (arith, left)) in
      let lc = level-above a.states v.tree s (suc (level_of a.states u)) h (omega (arith, left)) in
      subst (Leads later.states c)
        (sym (enters_last 15 u c later.states composite (remembered.1 e)))
        (actual_state_to_enter-Leads later.states kept.kept_shaped 15 c
          (omega (arith, same.counts, hc)) (omega (arith, same.levels c, lc)))
