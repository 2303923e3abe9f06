-- ===== src/Agents/States/Shape.antt =====
-- The tree of states: what the constructors keep, and the states above a state.
use android_vendor_sobjectiz.Common.{
  ℕ, zero, suc, ◌==◌, true, false, Option, none, some, ◌≡◌, ◌<◌, ◌≤◌, refl, sym, ap, ◌∙◌, arith,
  inl, inr, Bool-cases, Option-cases,
}
use android_vendor_sobjectiz.Agents.States.{Table, parent_of, level_of, max_deep}

-- The state at level `k` above `s`, whose own level is `n`.
unfoldable pub above : (ℕ → Option ℕ) → ℕ → ℕ → ℕ → ℕ
above parent zero s k = s
above parent (suc n) s k = elim (k == suc n) [
  | true ↦ s
  | false ↦ elim (parent s) [ none ↦ s | some p ↦ above parent n p k ]
]

abbrev pub above_of : Table → ℕ → ℕ → ℕ
above_of t s k = above (parent_of t) (level_of t s) s k

-- `a` is `s` or a state around it.
abbrev pub Encloses : Table → ℕ → ℕ → Type 0
Encloses t a s = (level_of t a ≤ level_of t s) × (above_of t s (level_of t a) ≡ a)

pub record IsTree (t : Table) : Type 0 where
  pub level_lt : (i : ℕ) → i < t.count → level_of t i < max_deep
  pub top : (i : ℕ) → i < t.count → parent_of t i ≡ none → level_of t i ≡ 0
  pub parents :
      (i p : ℕ)
      → i < t.count
      → parent_of t i ≡ some p
      → (p < t.count) × (level_of t i ≡ suc (level_of t p)) × (0 < (t.state p).substate_count)

-- What the states remember lies inside them.
pub record IsShaped (t : Table) : Type 0 where
  pub tree : IsTree t
  pub initials :
      (i c : ℕ)
      → i < t.count
      → (t.state i).initial_substate ≡ some c
      → (c < t.count) × (parent_of t c ≡ some i)
  pub lasts :
      (i c : ℕ)
      → i < t.count
      → (t.state i).last_active_substate ≡ some c
      → (c < t.count) × (level_of t i < level_of t c) × (above_of t c (level_of t i) ≡ i)

module _ (t : Table) (tree : IsTree t) where
  -- Every state that is not on the top has a parent.
  pub parent-cases : (s : ℕ) → s < t.count → 0 < level_of t s → (p : ℕ) × (parent_of t s ≡ some p)
  parent-cases s h l = elim (Option-cases (parent_of t s)) [
    | inl e ↦ absurd (omega (arith, tree.top s h e))
    | inr (p, e) ↦ (p, e)
  ]

  above_lem :
      (n s k : ℕ)
      → level_of t s ≡ n
      → s < t.count
      → k ≤ n
      → (above (parent_of t) n s k < t.count) × (level_of t (above (parent_of t) n s k) ≡ k)
  unfolding above
  above_lem zero s k e h le = (h, omega arith)
  above_lem (suc n) s k e h le = elim (Bool-cases (k == suc n)) [
    | inl here ↦ rw (here, above) (h, ground arith)
    | inr up ↦
        let (p, parent) = parent-cases s h (omega arith) in
        let (hp, lp, cp) = tree.parents s p h parent in
        rw (up, parent, above) (above_lem n p k (omega arith) hp (ground arith))
  ]

  pub level-above : (s k : ℕ) → s < t.count → k ≤ level_of t s → level_of t (above_of t s k) ≡ k
  level-above s k h le = (above_lem (level_of t s) s k refl h le).1

  pub above-lt : (s k : ℕ) → s < t.count → k ≤ level_of t s → above_of t s k < t.count
  above-lt s k h le = (above_lem (level_of t s) s k refl h le).0

  pub above_self : (s : ℕ) → above_of t s (level_of t s) ≡ s
  above_self s = by (level_of t s)
    where
      by : (n : ℕ) → above (parent_of t) n s n ≡ s
      by zero = unfold above in refl
      by (suc n) = unfold above in ground arith

  pub above-parent :
      (s p k : ℕ)
      → s < t.count
      → parent_of t s ≡ some p
      → k ≤ level_of t p
      → above_of t s k ≡ above_of t p k
  above-parent s p k h e le = let (hp, lp, cp) = tree.parents s p h e in rw lp (by (omega arith))
    where
      by : k < suc (level_of t p) → above (parent_of t) (suc (level_of t p)) s k ≡ above_of t p k
      by lt =
          unfold above in
          (let up : (k == suc (level_of t p)) ≡ false = ground arith in rw (up, e, above) refl)

  above-above' :
      (n s k j : ℕ)
      → level_of t s ≡ n
      → s < t.count
      → k ≤ n
      → j ≤ k
      → above_of t (above (parent_of t) n s k) j ≡ above_of t s j
  above-above' zero s k j e h le le' = unfold above in refl
  above-above' (suc n) s k j e h le le' = elim (Bool-cases (k == suc n)) [
    | inl here ↦ unfold above in rw (here, above) refl
    | inr up ↦
        let (p, parent) = parent-cases s h (omega arith) in
        let (hp, lp, cp) = tree.parents s p h parent in
        let lower : k ≤ n = ground arith in
        let rest = above-above' n p k j (omega arith) hp lower le' in
        let here : above (parent_of t) (suc n) s k ≡ above (parent_of t) n p k =
          unfold above in rw (up, parent, above) refl in
        ap (λ x. above_of t x j) here ∙ (rest ∙ sym (above-parent s p j h parent (omega arith)))
  ]

  pub above-above :
      (s k j : ℕ)
      → s < t.count
      → k ≤ level_of t s
      → j ≤ k
      → above_of t (above_of t s k) j ≡ above_of t s j
  above-above s k j h le le' = above-above' (level_of t s) s k j refl h le le'

  pub Encloses-self : (s : ℕ) → Encloses t s s
  Encloses-self s = (omega arith, above_self s)

  pub Encloses-trans : (a b c : ℕ) → c < t.count → Encloses t a b → Encloses t b c → Encloses t a c
  Encloses-trans a b c h x y = (
    omega (arith, x.0, y.0),
    sym (above-above c (level_of t b) (level_of t a) h y.0 x.0)
        ∙ (ap (λ z. above_of t z (level_of t a)) y.1 ∙ x.1),
  )

  pub Encloses-parent : (s p : ℕ) → s < t.count → parent_of t s ≡ some p → Encloses t p s
  Encloses-parent s p h e =
      let (hp, lp, cp) = tree.parents s p h e in
      (omega arith, above-parent s p (level_of t p) h e (omega arith) ∙ above_self p)

-- Tables with the same parents and levels, as far as the first one goes, have the same tree.
module _ (t t' : Table) (tree : IsTree t)
    (same : (i : ℕ) → i < t.count → parent_of t' i ≡ parent_of t i) where
  above_cong :
      (n s k : ℕ)
      → level_of t s ≡ n
      → s < t.count
      → above (parent_of t') n s k ≡ above (parent_of t) n s k
  unfolding above
  above_cong zero s k e h = refl
  above_cong (suc n) s k e h =
      let (p, parent) = parent-cases t tree s h (omega arith) in
      let (hp, lp, cp) = tree.parents s p h parent in
      let parent' : parent_of t' s ≡ some p = same s h ∙ parent in
      elim (Bool-cases (k == suc n)) [
        | inl here ↦ rw (here, above) refl
        | inr up ↦ rw (up, parent, parent', above) (above_cong n p k (omega arith) hp)
      ]

  pub above-cong :
      (s k : ℕ) → s < t.count → level_of t' s ≡ level_of t s → above_of t' s k ≡ above_of t s k
  above-cong s k h e = rw e (above_cong (level_of t s) s k refl h)
