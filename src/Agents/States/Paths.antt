-- ===== src/Agents/States/Paths.antt =====
-- The path of a state: the array holds the states above it, each at its level.
use android_vendor_sobjectiz.Common.{
  ℕ, zero, suc, ◌==◌, Option, none, some, ◌≡◌, ◌≢◌, ◌<◌, ◌≤◌, refl, sym, ap, ◌∙◌, arith, inl, inr,
  Bool-cases,
}
use android_vendor_sobjectiz.Agents.States.{Table, level_of, parent_of, write, fill_path, path_of}
use android_vendor_sobjectiz.Agents.States.Shape.{
  IsTree, above, above_of, parent-cases, Encloses, above-parent, above_self,
}

module _ (t : Table) (tree : IsTree t) where
  fill_path_far :
      (n s k : ℕ) (path : ℕ → Option ℕ)
      → level_of t s ≡ n
      → s < t.count
      → n < k
      → fill_path n t s path k ≡ path k
  unfolding fill_path
  fill_path_far zero s k path e h far = ground arith
  fill_path_far (suc n) s k path e h far =
      let (p, parent) = parent-cases t tree s h (omega arith) in
      let (hp, lp, c) = tree.parents s p h parent in
      rw (parent, fill_path)
        (fill_path_far n p k (write t s path) (omega arith) hp (omega arith) ∙ ground arith)

  fill_path_lem :
      (n s k : ℕ) (path : ℕ → Option ℕ)
      → level_of t s ≡ n
      → s < t.count
      → k ≤ n
      → fill_path n t s path k ≡ some (above (parent_of t) n s k)
  unfolding fill_path above
  fill_path_lem zero s k path e h le = ground arith
  fill_path_lem (suc n) s k path e h le =
      let (p, parent) = parent-cases t tree s h (omega arith) in
      let (hp, lp, c) = tree.parents s p h parent in
      elim (Bool-cases (k == suc n)) [
        | inl here ↦
            rw (parent, here, fill_path, above)
              (fill_path_far n p k (write t s path) (omega arith) hp (ground arith) ∙ ground arith)
        | inr up ↦
            rw (parent, fill_path)
              (rw (up, parent, above)
                (fill_path_lem n p k (write t s path) (omega arith) hp (ground arith)))
      ]

  pub path_of_lem :
      (s k : ℕ) → s < t.count → k ≤ level_of t s → path_of t s k ≡ some (above_of t s k)
  unfolding path_of
  path_of_lem s k h le = fill_path_lem (level_of t s) s k (λ i. none) refl h le

  -- A state around another one has a substate.
  Encloses-count' :
      (n a s : ℕ)
      → level_of t s ≡ n
      → s < t.count
      → a ≢ s
      → Encloses t a s
      → 0 < (t.state a).substate_count
  Encloses-count' zero a s e h ne (le, at) =
      let top : level_of t a ≡ level_of t s = omega (arith, le) in
      absurd (ne (sym at ∙ (ap (above_of t s) top ∙ above_self t tree s)))
  Encloses-count' (suc n) a s e h ne (le, at) =
      let (p, parent) = parent-cases t tree s h (omega arith) in
      let (hp, lp, c) = tree.parents s p h parent in
      elim (Bool-cases (level_of t a == level_of t s)) [
        | inl same ↦
            let top : level_of t a ≡ level_of t s = ground arith in
            absurd (ne (sym at ∙ (ap (above_of t s) top ∙ above_self t tree s)))
        | inr under ↦
            let lower : level_of t a ≤ level_of t p = ground (arith, le, lp) in
            let up : above_of t p (level_of t a) ≡ a =
              sym (above-parent t tree s p (level_of t a) h parent lower) ∙ at in
            elim (Bool-cases (a == p)) [
              | inl here ↦ let same : p ≡ a = ground arith in ap_count same c
              | inr other ↦ Encloses-count' n a p (omega arith) hp (ground arith) (lower, up)
            ]
      ]
    where
      ap_count : {p a : ℕ} → p ≡ a → 0 < (t.state p).substate_count → 0 < (t.state a).substate_count
      ap_count e c = rw e at c

  pub Encloses-count :
      (a s : ℕ) → s < t.count → a ≢ s → Encloses t a s → 0 < (t.state a).substate_count
  Encloses-count a s h ne en = Encloses-count' (level_of t s) a s refl h ne en
