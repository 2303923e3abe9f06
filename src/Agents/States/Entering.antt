-- ===== src/Agents/States/Entering.antt =====
-- actual_state_to_enter: it comes to an end, at a state that has no substates.
use android_vendor_sobjectiz.Common.{
  ℕ, zero, suc, ◌+◌, ◌==◌, none, ◌≡◌, ◌<◌, ◌≤◌, arith, inl, inr, Bool-cases, Option-cases,
}
use android_vendor_sobjectiz.Agents.States.{
  Table, level_of, max_deep, Entry, enters, no_initial, loops, actual_state_to_enter,
}
use android_vendor_sobjectiz.Agents.States.Shape.{
  IsShaped, Encloses, Encloses-self, Encloses-trans, Encloses-parent,
}

-- The state found has no substates and lies inside `s`; without one, some composite state inside `s`
-- has neither a history nor an initial substate.
abbrev pub Leads : Table → ℕ → Entry → Type 0
Leads t s (enters c) = (c < t.count) × ((t.state c).substate_count ≡ 0) × Encloses t s c
Leads t s no_initial =
    (c : ℕ) × (c < t.count)
    × (0 < (t.state c).substate_count)
    × ((t.state c).last_active_substate ≡ none)
    × ((t.state c).initial_substate ≡ none)
    × Encloses t s c
Leads t s loops = ⊥

module _ (t : Table) (v : IsShaped t) where
  Leads-trans : (s c : ℕ) (r : Entry) → Encloses t s c → Leads t c r → Leads t s r
  Leads-trans s c (enters d) e (h, n, l) = (h, n, Encloses-trans t v.tree s c d h e l)
  Leads-trans s c no_initial e (d, h, n, a, i, l) =
      (d, h, n, a, i, Encloses-trans t v.tree s c d h e l)
  Leads-trans s c loops e l = l

  -- Inside a table of states that the constructors made, actual_state_to_enter always ends, however
  -- many rounds more than the depth allowed it is given: it finds a state that has no substates and
  -- lies inside `s`, or it stops at a state inside `s` that has substates, but no initial one and no
  -- history.
  pub actual_state_to_enter-Leads :
      (fuel s : ℕ)
      → s < t.count
      → max_deep ≤ fuel + level_of t s
      → Leads t s (actual_state_to_enter fuel t s)
  unfolding actual_state_to_enter
  actual_state_to_enter-Leads zero s h f = absurd (omega (arith, v.tree.level_lt s h))
  actual_state_to_enter-Leads (suc fuel) s h f =
      elim (Bool-cases ((t.state s).substate_count == 0)) [
        | inl leaf ↦ rw (leaf, actual_state_to_enter) (h, ground arith, Encloses-self t v.tree s)
        | inr composite ↦ elim (Option-cases (t.state s).last_active_substate) [
          | inr (c, e) ↦
              let (hc, deeper, inside) = v.lasts s c h e in
              rw (composite, e, actual_state_to_enter)
                (Leads-trans s c _ (omega arith, inside)
                  (actual_state_to_enter-Leads fuel c hc (omega arith)))
          | inl e ↦ elim (Option-cases (t.state s).initial_substate) [
            | inr (c, i) ↦
                let (hc, parent) = v.initials s c h i in
                let (hs, deeper, n) = v.tree.parents c s hc parent in
                rw (composite, e, i, actual_state_to_enter)
                  (Leads-trans s c _ (Encloses-parent t v.tree c s hc parent)
                    (actual_state_to_enter-Leads fuel c hc (omega arith)))
            | inl i ↦
                rw (composite, e, i, actual_state_to_enter)
                  (s, h, ground arith, e, i, Encloses-self t v.tree s)
          ]
        ]
      ]
