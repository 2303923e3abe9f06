-- ===== src/Agents/States/Making.antt =====
-- The constructors of states and clear_history keep the tree of states.
use android_vendor_sobjectiz.Common.{
  ℕ, suc, ◌+◌, ◌==◌, none, some, ◌≡◌, ◌<◌, ◌≤◌, sym, ap, ◌∙◌, arith, inl, inr, Bool-cases, ◌⊎◌,
}
use android_vendor_sobjectiz.Agents.States.{Table, State, level_of, parent_of, max_deep, put, add}
use android_vendor_sobjectiz.Agents.States.Shape.{IsTree, IsShaped, above_of, above-cong}

-- A state is replaced by one at the same place.
module _ (t : Table) (v : IsShaped t) (i : ℕ) (s : State) (h : i < t.count)
    (same_parent : s.parent_state ≡ parent_of t i) (same_level : s.nested_level ≡ level_of t i)
    (no_less : (t.state i).substate_count ≤ s.substate_count) where
  parent-put : (j : ℕ) → parent_of (put t i s) j ≡ parent_of t j
  parent-put j = ground (arith, same_parent)

  level-put : (j : ℕ) → level_of (put t i s) j ≡ level_of t j
  level-put j = ground (arith, same_level)

  put-IsTree : IsTree (put t i s)
  put-IsTree = record {
    level_lt = λ j l. omega (arith, level-put j, v.tree.level_lt j l);
    top = λ j l e. level-put j ∙ v.tree.top j l (sym (parent-put j) ∙ e);
    parents = λ j p l e.
        let (hp, lp, n) = v.tree.parents j p l (sym (parent-put j) ∙ e) in
        (hp, omega (arith, level-put j, level-put p, lp), ground (arith, n, no_less));
  }

  above-put : (c k : ℕ) → c < t.count → above_of (put t i s) c k ≡ above_of t c k
  above-put c k l = above-cong t (put t i s) v.tree (λ j l'. parent-put j) c k l (level-put c)

  pub put-IsShaped :
      ((c : ℕ) → s.initial_substate ≡ some c → (c < t.count) × (parent_of t c ≡ some i))
      → ((c : ℕ)
          → s.last_active_substate ≡ some c
          → (c < t.count) × (level_of t i < level_of t c) × (above_of t c (level_of t i) ≡ i))
      → IsShaped (put t i s)
  put-IsShaped ini las = record {
    tree = put-IsTree;
    initials = λ j c l e. initial j c l e;
    lasts = λ j c l e. last j c l e;
  }
    where
      initial :
          (j c : ℕ)
          → j < t.count
          → ((put t i s).state j).initial_substate ≡ some c
          → (c < t.count) × (parent_of (put t i s) c ≡ some j)
      initial j c l e = elim (Bool-cases (j == i)) [
        | inl here ↦
            let same : j ≡ i = ground arith in
            let (hc, p) = ini c (ground arith) in (hc, parent-put c ∙ (p ∙ ap some (sym same)))
        | inr other ↦ let (hc, p) = v.initials j c l (ground arith) in (hc, parent-put c ∙ p)
      ]

      last :
          (j c : ℕ)
          → j < t.count
          → ((put t i s).state j).last_active_substate ≡ some c
          → (c < t.count)
            × (level_of (put t i s) j < level_of (put t i s) c)
            × (above_of (put t i s) c (level_of (put t i s) j) ≡ j)
      last j c l e = elim (Bool-cases (j == i)) [
        | inl here ↦
            let same : j ≡ i = ground arith in
            let (hc, d, a) = las c (ground arith) in
            (
              hc,
              omega (arith, level-put j, level-put c, d, ap (level_of t) same),
              above-put c _ hc
                  ∙ (ap (above_of t c) (level-put j ∙ ap (level_of t) same) ∙ (a ∙ sym same)),
            )
        | inr other ↦
            let (hc, d, a) = v.lasts j c l (ground arith) in
            (
              hc,
              omega (arith, level-put j, level-put c, d),
              above-put c _ hc ∙ (ap (above_of t c) (level-put j) ∙ a),
            )
      ]

-- A new state, without substates.
module _ (t : Table) (v : IsShaped t) (s : State) (level_small : s.nested_level < max_deep)
    (on_top : s.parent_state ≡ none → s.nested_level ≡ 0)
    (inside : (p : ℕ)
      → s.parent_state ≡ some p
      → (p < t.count) × (s.nested_level ≡ suc (level_of t p)) × (0 < (t.state p).substate_count))
    (no_initial_yet : s.initial_substate ≡ none) (no_last_yet : s.last_active_substate ≡ none) where
  old : (j : ℕ) → j < t.count → (add t s).state j ≡ t.state j
  old j l = ground arith

  cases : (j : ℕ) → j < t.count + 1 → (j ≡ t.count) ⊎ (j < t.count)
  cases j l = elim (Bool-cases (j == t.count)) [
    | inl here ↦ inl (ground arith)
    | inr other ↦ inr (ground arith)
  ]

  new : (add t s).state t.count ≡ s
  new = ground arith

  add-IsTree : IsTree (add t s)
  add-IsTree = record {
    level_lt = λ j l. ground (arith, v.tree.level_lt j);
    top = λ j l e. ground (arith, v.tree.top j);
    parents = λ j p l e. parents j p l e;
  }
    where
      parents :
          (j p : ℕ)
          → j < t.count + 1
          → parent_of (add t s) j ≡ some p
          → (p < t.count + 1)
            × (level_of (add t s) j ≡ suc (level_of (add t s) p))
            × (0 < ((add t s).state p).substate_count)
      parents j p l e = elim (cases j l) [
        | inl here ↦
            let (hp, lp, n) = inside p (ground arith) in
            (omega arith, ground (arith, lp), ground (arith, n))
        | inr other ↦
            let (hp, lp, n) = v.tree.parents j p other (ground arith) in
            (omega arith, ground (arith, lp), ground (arith, n))
      ]

  above-add : (c k : ℕ) → c < t.count → above_of (add t s) c k ≡ above_of t c k
  above-add c k l =
      above-cong t (add t s) v.tree (λ j l'. ap (λ (x : State). x.parent_state) (old j l')) c k l
        (ap (λ (x : State). x.nested_level) (old c l))

  pub add-IsShaped : IsShaped (add t s)
  add-IsShaped = record {
    tree = add-IsTree;
    initials = λ j c l e. initial j c l e;
    lasts = λ j c l e. last j c l e;
  }
    where
      initial :
          (j c : ℕ)
          → j < t.count + 1
          → ((add t s).state j).initial_substate ≡ some c
          → (c < t.count + 1) × (parent_of (add t s) c ≡ some j)
      initial j c l e = elim (cases j l) [
        | inl here ↦ absurd (ground (arith, no_initial_yet))
        | inr other ↦
            let (hc, p) = v.initials j c other (ground arith) in (omega arith, ground (arith, p))
      ]

      last :
          (j c : ℕ)
          → j < t.count + 1
          → ((add t s).state j).last_active_substate ≡ some c
          → (c < t.count + 1)
            × (level_of (add t s) j < level_of (add t s) c)
            × (above_of (add t s) c (level_of (add t s) j) ≡ j)
      last j c l e = elim (cases j l) [
        | inl here ↦ absurd (ground (arith, no_last_yet))
        | inr other ↦
            let (hc, d, a) = v.lasts j c other (ground arith) in
            let lj : level_of (add t s) j ≡ level_of t j =
              ap (λ (x : State). x.nested_level) (old j other) in
            let lc : level_of (add t s) c ≡ level_of t c =
              ap (λ (x : State). x.nested_level) (old c hc) in
            (omega arith, omega (arith, lj, lc, d), above-add c _ hc ∙ (ap (above_of t c) lj ∙ a))
      ]
