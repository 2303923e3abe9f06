-- ===== src/Agents/Switch/Histories.antt =====
-- What a state with a history remembers of the last state inside it.
use android_vendor_sobjectiz.Common.{
  ℕ, zero, suc, ◌==◌, some, ◌≡◌, ◌≢◌, ◌<◌, refl, sym, ap, ◌∙◌, arith, inl, inr, Bool-cases,
}
use android_vendor_sobjectiz.Agents.States.{Table, State, shallow, deep, level_of, update_history}
use android_vendor_sobjectiz.Agents.States.Shape.{
  IsShaped, above_of, Encloses, Encloses-parent, Encloses-trans, above-parent, above_self,
  parent-cases,
}
use android_vendor_sobjectiz.Agents.States.Remembering.{
  put-IsSame, remembered, remembered-IsShaped, above-same,
}

-- The states that are not around `c` are left alone, and so is `c`.
abbrev IsApart : Table → ℕ → ℕ → Type 0
IsApart t u c = level_of t u < level_of t c → above_of t c (level_of t u) ≢ u

module _ (this : ℕ) where
  pub untouched :
      (n c u : ℕ) (t : Table)
      → IsShaped t
      → this < t.count
      → c < t.count
      → Encloses t c this
      → level_of t c ≡ n
      → IsApart t u c
      → (update_history n this c t).state u ≡ t.state u
  unfolding update_history
  untouched zero c u t v h hc inside e apart = refl
  untouched (suc n) c u t v h hc inside e apart =
      let (p, parent) = parent-cases t v.tree c hc (omega arith) in
      let (hp, lp, k) = v.tree.parents c p hc parent in
      let next = Encloses-parent t v.tree c p hc parent in
      let same = put-IsSame this c p t in
      let outer = Encloses-trans t v.tree p c this h next inside in
      let off : u ≢ p = λ q.
        apart (omega (arith, lp, ap (level_of t) q))
          (ap (above_of t c) (ap (level_of t) q) ∙ (next.1 ∙ sym q)) in
      let apart' : IsApart (remembered this c p t) u p = λ l q.
        apart (omega (arith, same.levels u, same.levels p, l, lp)) (
          above-parent t v.tree c p (level_of t u) hc parent
            (omega (arith, same.levels u, same.levels p, l))
          ∙ (sym (above-same t (remembered this c p t) v.tree same p (level_of t u) hp)
              ∙ (ap (above_of (remembered this c p t) p) (sym (same.levels u)) ∙ q))) in
      rw (parent, update_history)
        (untouched n p u (remembered this c p t)
            (remembered-IsShaped this c p t v h hc parent inside) h hp
            (
              omega (arith, same.levels p, same.levels this, outer.0),
              above-same t (remembered this c p t) v.tree same this _ h
                  ∙ (ap (above_of t this) (same.levels p) ∙ outer.1),
            )
            (omega (arith, same.levels p)) apart'
          ∙ ground (arith, off))

  abbrev Remembers : Table → ℕ → ℕ → State → Type 0
  Remembers t c u s =
      (s.state_history ≡ deep → s.last_active_substate ≡ some this)
      × (s.state_history ≡ shallow
          → s.last_active_substate ≡ some (above_of t c (suc (level_of t u))))

  pub remembers :
      (n c u : ℕ) (t : Table)
      → IsShaped t
      → this < t.count
      → c < t.count
      → Encloses t c this
      → level_of t c ≡ n
      → level_of t u < level_of t c
      → above_of t c (level_of t u) ≡ u
      → Remembers t c u ((update_history n this c t).state u)
  unfolding update_history
  remembers zero c u t v h hc inside e l at = absurd (omega arith)
  remembers (suc n) c u t v h hc inside e l at =
      let (p, parent) = parent-cases t v.tree c hc (omega arith) in
      let (hp, lp, k) = v.tree.parents c p hc parent in
      let next = Encloses-parent t v.tree c p hc parent in
      let t' : Table = remembered this c p t in
      let same = put-IsSame this c p t in
      let outer = Encloses-trans t v.tree p c this h next inside in
      let v' = remembered-IsShaped this c p t v h hc parent inside in
      let inside' : Encloses t' p this = (
        omega (arith, same.levels p, same.levels this, outer.0),
        above-same t t' v.tree same this _ h ∙ (ap (above_of t this) (same.levels p) ∙ outer.1),
      ) in
      elim (Bool-cases (level_of t u == level_of t p)) [
        | inl here ↦
            let lu : level_of t u ≡ level_of t p = ground arith in
            let q : u ≡ p = sym at ∙ (ap (above_of t c) lu ∙ next.1) in
            let kept : (update_history n this p t').state u ≡ t'.state u =
              untouched n p u t' v' h hp inside' (omega (arith, same.levels p))
                (λ l' q'. absurd (omega (arith, l', same.levels u, same.levels p, lu))) in
            let child : above_of t c (suc (level_of t u)) ≡ c =
              ap (above_of t c) (omega (arith, lu, lp)) ∙ above_self t v.tree c in
            rw (parent, update_history) (rw kept (ground (arith, q), ground (arith, q, child)))
        | inr under ↦
            let lower : level_of t u < level_of t p = ground (arith, l, lp) in
            let at' : above_of t p (level_of t u) ≡ u =
              sym (above-parent t v.tree c p (level_of t u) hc parent (omega (arith, lower)))
              ∙ at in
            let rest =
              remembers n p u t' v' h hp inside' (omega (arith, same.levels p))
                (omega (arith, same.levels u, same.levels p, lower))
                (above-same t t' v.tree same p _ hp ∙ (ap (above_of t p) (same.levels u) ∙ at')) in
            let child : above_of t' p (suc (level_of t' u)) ≡ above_of t c (suc (level_of t u)) =
              above-same t t' v.tree same p _ hp
              ∙ (ap (λ (m : ℕ). above_of t p (suc m)) (same.levels u)
                  ∙ sym (
                      above-parent t v.tree c p (suc (level_of t u)) hc parent
                        (omega (arith, lower)))) in
            rw (parent, update_history) (rest.0, λ sh. rest.1 sh ∙ ap some child)
      ]
