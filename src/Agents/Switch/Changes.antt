-- ===== src/Agents/Switch/Changes.antt =====
-- so_change_state as a whole.
use mathlib.Core.Path.{fun_ext}
use android_vendor_sobjectiz.Common.{
  ℕ, ◌==◌, leb, Bool, true, false, not, ◌&&◌, List, [], ◌∷◌, ◌++◌, ◌≡◌, ◌≢◌, ◌<◌, refl, sym, ap,
  ap₂, ◌∙◌, arith, inl, inr, ◌⊎◌, Bool-cases, no_initial_substate, agent_unknown_state,
  operation_enabled_only_on_agent_working_thread,
}
use android_vendor_sobjectiz.Agents.States.{
  Table, parent_of, level_of, max_deep, Entry, enters, no_initial, loops, actual_state_to_enter,
  update_history_in_parent_states,
}
use android_vendor_sobjectiz.Agents.States.Shape.{IsShaped, above_of, Encloses}
use android_vendor_sobjectiz.Agents.States.Entering.{Leads, actual_state_to_enter-Leads}
use android_vendor_sobjectiz.Agents.States.Remembering.{
  IsSame, update-IsSame, update-IsShaped, above-same,
}
use android_vendor_sobjectiz.Agents.Switch.{
  Agent, changed, call_on_enter, call_on_exit, calls_of, is_target, so_is_active_state,
  do_state_switch, Change, ok, throws, endless, so_change_state,
}
use android_vendor_sobjectiz.Agents.Switch.Levels.{keep}
use android_vendor_sobjectiz.Agents.Switch.Calls.{
  innermost_first, outermost_first, is_active_lem, states_left-keep, states_entered-keep,
}

-- Its states are well made, and it is in one that has no substates.
pub record IsReady (a : Agent) : Type 0 where
  pub shaped : IsShaped a.states
  pub made : a.current_state < a.states.count
  pub simple : (a.states.state a.current_state).substate_count ≡ 0

abbrev pub leaving : Agent → List ℕ
leaving a = innermost_first (parent_of a.states) (level_of a.states a.current_state) a.current_state

abbrev pub entering : Agent → ℕ → List ℕ
entering a s = outermost_first (parent_of a.states) (level_of a.states s) s

-- What a change that is allowed does: nothing, or a switch to a state inside `s`, with the handlers
-- called of the states that are active before and not after, then of those that are active after
-- and not before.
abbrev pub Changes : Agent → ℕ → Change → Type 0
Changes a s (ok a' cs) =
    IsReady a'
    × Encloses a.states s a'.current_state
    × (((a' ≡ a) × (cs ≡ []))
        ⊎ (cs
            ≡ calls_of (call_on_exit a.states)
                (keep (λ x. not (so_is_active_state x a')) (leaving a))
              ++ calls_of (call_on_enter a.states)
                  (keep (λ x. not (so_is_active_state x a)) (entering a a'.current_state))
              ++ changed a'.current_state ∷ []))
Changes a s (throws e) = e ≡ no_initial_substate
Changes a s endless = ⊥

abbrev is_in : Table → ℕ → ℕ → Bool
is_in t u x = leb (level_of t x) (level_of t u) && (above_of t u (level_of t x) == x)

active_now :
    (a : Agent) (x : ℕ) → IsReady a → so_is_active_state x a ≡ is_in a.states a.current_state x
unfolding so_is_active_state
active_now a x r = is_active_lem a.states r.shaped.tree a.current_state x r.made

module _ (a : Agent) (r : IsReady a) (s : ℕ) (h : s < a.states.count)
    (leaf : (a.states.state s).substate_count ≡ 0) where
  abbrev t' : Table
  t' = update_history_in_parent_states s a.states

  same : IsSame a.states t'
  same = update-IsSame s a.states

  switched-IsReady : IsReady (do_state_switch s a).0
  unfolding do_state_switch
  switched-IsReady = record {
    shaped = update-IsShaped s a.states r.shaped h;
    made = omega (arith, same.counts, h);
    simple = same.substates s ∙ leaf;
  }

  active_then : (x : ℕ) → so_is_active_state x (do_state_switch s a).0 ≡ is_in a.states s x
  unfolding do_state_switch
  active_then x =
      active_now (do_state_switch s a).0 x switched-IsReady
      ∙ ap₂ (λ (l u : ℕ). leb l u && (above_of t' s l == x)) (same.levels x) (same.levels s)
      ∙ ap (λ y. leb (level_of a.states x) (level_of a.states s) && (y == x))
          (above-same a.states t' r.shaped.tree same s (level_of a.states x) h)

  switch-calls :
      a.current_state ≢ s
      → (do_state_switch s a).1
        ≡ calls_of
            (call_on_exit a.states)
            (keep (λ x. not (so_is_active_state x (do_state_switch s a).0)) (leaving a))
          ++ calls_of
              (call_on_enter a.states)
              (keep (λ x. not (so_is_active_state x a)) (entering a s))
  unfolding do_state_switch
  switch-calls ne =
      ap₂ (λ xs ys. calls_of (call_on_exit a.states) xs ++ calls_of (call_on_enter a.states) ys)
        (states_left-keep a.states r.shaped.tree a.current_state s r.made h ne r.simple leaf
          ∙ ap (λ P. keep P (leaving a)) (fun_ext λ x. ap not (sym (active_then x))))
        (states_entered-keep a.states r.shaped.tree a.current_state s r.made h ne r.simple leaf
          ∙ ap (λ P. keep P (entering a s)) (fun_ext λ x. ap not (sym (active_now a x r))))

module _ (a : Agent) (r : IsReady a) (thread s : ℕ) (h : s < a.states.count) where
  entered :
      (e : Entry)
      → actual_state_to_enter max_deep a.states s ≡ e
      → Leads a.states s e
      → thread ≡ a.working_thread_id
      → is_target a s ≡ true
      → Changes a s (so_change_state thread s a)
  unfolding so_change_state
  entered loops e l on target = absurd l
  entered no_initial e l on target =
      let here : (thread == a.working_thread_id) ≡ true = ground arith in
      rw (here, target, e, so_change_state) refl
  entered (enters c) e (hc, leaf, inside) on target =
      let here : (thread == a.working_thread_id) ≡ true = ground arith in
      elim (Bool-cases (c == a.current_state)) [
        | inl stays ↦
            let eq : c ≡ a.current_state = ground arith in
            rw (here, target, e, stays, so_change_state) (r, rw eq at inside, inl (refl, refl))
        | inr moves ↦
            let ne : a.current_state ≢ c = λ q. ground (arith, q) in
            rw (here, target, e, moves, so_change_state)
              (
                switched-IsReady a r c hc leaf,
                (unfold do_state_switch in inside),
                (unfold do_state_switch in
                    inr (ap (λ k. k ++ changed c ∷ []) (switch-calls a r c hc leaf ne))),
              )
      ]

  -- For an agent in a state without substates, on a thread that is not the agent's own
  -- so_change_state throws; for a state of another agent it throws; else it ends, and either throws
  -- that a composite state has no initial substate, or leaves the agent in a state without substates
  -- that lies inside `s`: the same one, with no calls, or another one, after the exit handlers of
  -- the states that are active before and not after, innermost first, the enter handlers of those
  -- that are active after and not before, outermost first, and the listeners.
  pub so_change_state-Changes :
      ((thread ≢ a.working_thread_id)
        × (so_change_state thread s a ≡ throws operation_enabled_only_on_agent_working_thread))
      ⊎ ((thread ≡ a.working_thread_id)
          × (is_target a s ≡ false)
          × (so_change_state thread s a ≡ throws agent_unknown_state))
      ⊎ ((thread ≡ a.working_thread_id)
          × (is_target a s ≡ true)
          × Changes a s (so_change_state thread s a))
  unfolding so_change_state
  so_change_state-Changes = elim (Bool-cases (thread == a.working_thread_id)) [
    | inr off ↦ inl (ground arith, rw (off, so_change_state) refl)
    | inl on ↦ elim (Bool-cases (is_target a s)) [
      | inr alien ↦ inr (inl (ground arith, alien, rw (on, alien, so_change_state) refl))
      | inl target ↦
          let here : thread ≡ a.working_thread_id = ground arith in
          inr (
            inr (
              here,
              target,
              entered (actual_state_to_enter max_deep a.states s) refl
                  (actual_state_to_enter-Leads a.states r.shaped max_deep s h (omega arith)) here
                  target,
            ))
    ]
  ]
