-- ===== src/Agents/States/Remembering.antt =====
-- update_history_in_parent_states: what it changes, and that the states keep their places.
use android_vendor_sobjectiz.Common.{
  ℕ, zero, suc, some, ◌≡◌, ◌<◌, refl, ap, ◌∙◌, arith, inl, inr, Option-cases,
}
use android_vendor_sobjectiz.Agents.States.{
  Table, History, level_of, parent_of, put, remember, update_history,
  update_history_in_parent_states,
}
use android_vendor_sobjectiz.Agents.States.Shape.{
  IsTree, IsShaped, above_of, Encloses, Encloses-parent, Encloses-trans, Encloses-self, above-cong,
}
use android_vendor_sobjectiz.Agents.States.Making.{put-IsShaped}

-- All but what is remembered stays.
pub record IsSame (t t' : Table) : Type 0 where
  pub counts : t'.count ≡ t.count
  pub parents : (i : ℕ) → parent_of t' i ≡ parent_of t i
  pub levels : (i : ℕ) → level_of t' i ≡ level_of t i
  pub substates : (i : ℕ) → (t'.state i).substate_count ≡ (t.state i).substate_count
  pub histories : (i : ℕ) → (t'.state i).state_history ≡ (t.state i).state_history

pub IsSame-refl : (t : Table) → IsSame t t
IsSame-refl t = record {
  counts = refl;
  parents = λ i. refl;
  levels = λ i. refl;
  substates = λ i. refl;
  histories = λ i. refl;
}

pub IsSame-trans : (t t' t'' : Table) → IsSame t t' → IsSame t' t'' → IsSame t t''
IsSame-trans t t' t'' a b = record {
  counts = b.counts ∙ a.counts;
  parents = λ i. b.parents i ∙ a.parents i;
  levels = λ i. b.levels i ∙ a.levels i;
  substates = λ i. b.substates i ∙ a.substates i;
  histories = λ i. b.histories i ∙ a.histories i;
}

module _ (this c p : ℕ) (t : Table) where
  abbrev pub remembered : Table
  remembered = put t p (remember this c (t.state p))

  pub put-IsSame : IsSame t remembered
  put-IsSame = by (t.state p).state_history refl
    where
      by : (h : History) → (t.state p).state_history ≡ h → IsSame t remembered
      by h e = record {
        counts = refl;
        parents = λ i. ground arith;
        levels = λ i. ground arith;
        substates = λ i. ground arith;
        histories = λ i. ground arith;
      }

  pub remembered-IsShaped :
      IsShaped t
      → this < t.count
      → c < t.count
      → parent_of t c ≡ some p
      → Encloses t c this
      → IsShaped remembered
  remembered-IsShaped v hthis hc parent inside =
      let (hp, lp, n) = v.tree.parents c p hc parent in
      let outer =
        Encloses-trans t v.tree p c this hthis (Encloses-parent t v.tree c p hc parent) inside in
      let next = Encloses-parent t v.tree c p hc parent in
      put-IsShaped t v p (remember this c (t.state p)) hp (ground arith) (ground arith)
        (ground arith) (λ d e. v.initials p d hp (ground arith))
        (λ d e. ground (arith, v.lasts p d hp, outer, next, lp, hc, hthis, inside))

-- The place of every state, once the tree is known to be the same.
pub above-same :
    (t t' : Table)
    → IsTree t
    → IsSame t t'
    → (s k : ℕ) → s < t.count
    → above_of t' s k ≡ above_of t s k
above-same t t' tree e s k h = above-cong t t' tree (λ i l. e.parents i) s k h (e.levels s)

update_history-IsSame : (fuel this c : ℕ) (t : Table) → IsSame t (update_history fuel this c t)
unfolding update_history
update_history-IsSame zero this c t = IsSame-refl t
update_history-IsSame (suc fuel) this c t = elim (Option-cases (parent_of t c)) [
  | inl top ↦ rw (top, update_history) (IsSame-refl t)
  | inr (p, parent) ↦
      rw (parent, update_history)
        (IsSame-trans t (remembered this c p t) _ (put-IsSame this c p t)
          (update_history-IsSame fuel this p (remembered this c p t)))
]

update_history-IsShaped :
    (fuel this c : ℕ) (t : Table)
    → IsShaped t
    → this < t.count
    → c < t.count
    → Encloses t c this
    → IsShaped (update_history fuel this c t)
unfolding update_history
update_history-IsShaped zero this c t v h hc inside = v
update_history-IsShaped (suc fuel) this c t v h hc inside = elim (Option-cases (parent_of t c)) [
  | inl top ↦ rw (top, update_history) v
  | inr (p, parent) ↦
      let e = put-IsSame this c p t in
      let (hp, lp, n) = v.tree.parents c p hc parent in
      let outer =
        Encloses-trans t v.tree p c this h (Encloses-parent t v.tree c p hc parent) inside in
      rw (parent, update_history)
        (update_history-IsShaped fuel this p (remembered this c p t)
          (remembered-IsShaped this c p t v h hc parent inside) h hp
          (
            omega (arith, e.levels p, e.levels this, outer.0),
            above-same t (remembered this c p t) v.tree e this _ h
                ∙ (ap (above_of t this) (e.levels p) ∙ outer.1),
          ))
]

pub update-IsSame : (s : ℕ) (t : Table) → IsSame t (update_history_in_parent_states s t)
unfolding update_history_in_parent_states
update-IsSame s t = update_history-IsSame (level_of t s) s s t

pub update-IsShaped :
    (s : ℕ) (t : Table) → IsShaped t → s < t.count → IsShaped (update_history_in_parent_states s t)
unfolding update_history_in_parent_states
update-IsShaped s t v h =
    update_history-IsShaped (level_of t s) s s t v h h (Encloses-self t v.tree s)
