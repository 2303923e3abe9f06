-- ===== src/Agents/States/Constructors.antt =====
-- What each constructor of a state, clear_history, on_enter and on_exit leave of a table.
use android_vendor_sobjectiz.Common.{
  ℕ, ◌+◌, leb, true, Option, none, some, ◌≡◌, ◌<◌, refl, sym, ap, ◌∙◌, arith, inl, inr, Bool-cases,
  Option-cases,
}
use android_vendor_sobjectiz.Agents.States.{
  Table, State, History, level_of, parent_of, max_deep, put, add, new_state, Made, made, throws,
  make_state, make_substate, make_initial_substate, clear_history, set_on_enter, set_on_exit,
}
use android_vendor_sobjectiz.Agents.States.Shape.{IsShaped, above_of, above-cong}
use android_vendor_sobjectiz.Agents.States.Making.{put-IsShaped, add-IsShaped}

-- What a constructor leaves: a shaped table, and the new state's place in it.
abbrev pub Leaves : Table → Option ℕ → Made → Type 0
Leaves t parent (made s t') =
    IsShaped t'
    × (s ≡ t.count)
    × (t'.count ≡ t.count + 1)
    × (parent_of t' s ≡ parent)
    × ((t'.state s).substate_count ≡ 0)
Leaves t parent (throws e t') = IsShaped t' × (t'.count ≡ t.count)

module _ (t : Table) (v : IsShaped t) where
  pub make_state-Leaves :
      (target : Option ℕ) (history : History) → Leaves t none (make_state target history t)
  unfolding make_state
  make_state-Leaves target history = (
    add-IsShaped t v (new_state target none 0 history) (omega arith) (λ e. refl) (λ p e. absurd cc)
        refl refl,
    refl,
    refl,
    ground arith,
    ground arith,
  )

  -- The parent with one substate more.
  abbrev counted : ℕ → State
  counted p = record (t.state p) { substate_count = (t.state p).substate_count + 1 }

  counted-IsShaped : (p : ℕ) → p < t.count → IsShaped (put t p (counted p))
  counted-IsShaped p h =
      put-IsShaped t v p (counted p) h refl refl (omega arith) (λ c e. v.initials p c h e)
        (λ c e. v.lasts p c h e)

  substate-IsShaped :
      (p : ℕ) (history : History)
      → p < t.count
      → level_of t p + 1 < max_deep
      → IsShaped (
          add
            (put t p (counted p))
            (new_state (t.state p).target_agent (some p) (level_of t p + 1) history))
  substate-IsShaped p history h deep =
      add-IsShaped (put t p (counted p)) (counted-IsShaped p h)
        (new_state (t.state p).target_agent (some p) (level_of t p + 1) history) deep
        (λ e. absurd cc) (λ q e. ground arith) refl refl

  pub make_substate-Leaves :
      (p : ℕ) (history : History) → p < t.count → Leaves t (some p) (make_substate p history t)
  unfolding make_substate
  make_substate-Leaves p history h = elim (Bool-cases (leb max_deep (level_of t p + 1))) [
    | inl deep ↦ rw (deep, make_substate) (v, refl)
    | inr room ↦
        rw (room, make_substate)
          (substate-IsShaped p history h (ground arith), refl, refl, ground arith, ground arith)
  ]

  pub clear_history-IsShaped : (s : ℕ) → s < t.count → IsShaped (clear_history s t)
  unfolding clear_history
  clear_history-IsShaped s h =
      put-IsShaped t v s (record (t.state s) { last_active_substate = none }) h refl refl
        (omega arith) (λ c e. v.initials s c h e) (λ c e. absurd cc)

  pub set_on_enter-IsShaped : (s : ℕ) → s < t.count → IsShaped (set_on_enter s t)
  unfolding set_on_enter
  set_on_enter-IsShaped s h =
      put-IsShaped t v s (record (t.state s) { on_enter = true }) h refl refl (omega arith)
        (λ c. v.initials s c h) (λ c. v.lasts s c h)

  pub set_on_exit-IsShaped : (s : ℕ) → s < t.count → IsShaped (set_on_exit s t)
  unfolding set_on_exit
  set_on_exit-IsShaped s h =
      put-IsShaped t v s (record (t.state s) { on_exit = true }) h refl refl (omega arith)
        (λ c. v.initials s c h) (λ c. v.lasts s c h)

-- A table that goes like a shaped one as far as it goes.
agree-IsShaped :
    (t u : Table)
    → IsShaped t
    → u.count ≡ t.count
    → ((i : ℕ) → i < t.count → u.state i ≡ t.state i)
    → IsShaped u
agree-IsShaped t u v e same = record {
  tree = record {
    level_lt = λ i h. let s = same i (rw e at h) in ground (arith, s, v.tree.level_lt i);
    top = λ i h n. let s = same i (rw e at h) in ground (arith, s, v.tree.top i);
    parents = λ i p h n.
        let s = same i (rw e at h) in
        let (hp, lp, c) =
          v.tree.parents i p (rw e at h) (sym (ap (λ (x : State). x.parent_state) s) ∙ n) in
        (rw e hp, ground (arith, s, same p hp, lp), ground (arith, same p hp, c));
  };
  initials = λ i c h n.
      let s = same i (rw e at h) in
      let (hc, p) =
        v.initials i c (rw e at h) (sym (ap (λ (x : State). x.initial_substate) s) ∙ n) in
      (rw e hc, ap (λ (x : State). x.parent_state) (same c hc) ∙ p);
  lasts = λ i c h n.
      let s = same i (rw e at h) in
      let (hc, d, a) =
        v.lasts i c (rw e at h) (sym (ap (λ (x : State). x.last_active_substate) s) ∙ n) in
      let li : level_of u i ≡ level_of t i = ap (λ (x : State). x.nested_level) s in
      let lc : level_of u c ≡ level_of t c = ap (λ (x : State). x.nested_level) (same c hc) in
      (
        rw e hc,
        omega (arith, li, lc, d),
        above-cong t u v.tree (λ j l. ap (λ (x : State). x.parent_state) (same j l)) c _ hc lc
            ∙ (ap (above_of t c) li ∙ a),
      );
}

module _ (t : Table) (v : IsShaped t) (p : ℕ) (history : History) (h : p < t.count) where
  -- The table after the delegated constructor.
  abbrev delegated : Table
  delegated =
      add (put t p (counted t v p))
        (new_state (t.state p).target_agent (some p) (level_of t p + 1) history)

  same_parent : delegated.state p ≡ counted t v p
  same_parent = ground arith

  at_parent : (t.state p).initial_substate ≡ (delegated.state p).initial_substate
  at_parent = sym (ap (λ (x : State). x.initial_substate) same_parent)

  with_initial : State
  with_initial = record (delegated.state p) { initial_substate = some t.count }

  initial-IsShaped : level_of t p + 1 < max_deep → IsShaped (put delegated p with_initial)
  unfolding with_initial
  initial-IsShaped room =
      let w = substate-IsShaped t v p history h room in
      put-IsShaped delegated w p with_initial (omega arith) refl refl (omega arith)
        (λ c e. (ground arith, ground arith)) (λ c e. w.lasts p c (omega arith) e)

  pub make_initial_substate-Leaves : Leaves t (some p) (make_initial_substate p history t)
  unfolding make_initial_substate make_substate with_initial
  make_initial_substate-Leaves = elim (Bool-cases (leb max_deep (level_of t p + 1))) [
    | inl deep ↦ rw (deep, make_initial_substate) (v, refl)
    | inr room ↦
        let room' : level_of t p + 1 < max_deep = ground arith in
        elim (Option-cases (delegated.state p).initial_substate) [
          | inl free ↦
              rw (room, free, make_initial_substate)
                (initial-IsShaped room', refl, refl, ground arith, ground arith)
          | inr (i, taken) ↦
              rw (room, taken, make_initial_substate)
                (
                  agree-IsShaped (put t p (counted t v p)) (record delegated { count = t.count })
                      (counted-IsShaped t v p h) refl (λ j l. ground arith),
                  refl,
                )
        ]
  ]
