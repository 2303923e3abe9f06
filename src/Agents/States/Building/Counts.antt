-- ===== src/Agents/States/Building/Counts.antt =====
-- Tables of states in which m_substate_count is the number of substates.
use android_vendor_sobjectiz.Common.{
  ℕ, zero, suc, ◌+◌, ◌==◌, if◌then◌else◌, Option, none, some, ◌≡◌, ◌<◌, ◌≤◌, refl, ap, ◌∙◌, arith,
  inl, inr, Bool-cases, Option-cases,
}
use android_vendor_sobjectiz.Agents.States.{Table, parent_of}
use android_vendor_sobjectiz.Agents.States.Shape.{IsShaped}

abbrev pub is_parent : ℕ → Option ℕ → ℕ
is_parent i none = 0
is_parent i (some p) = if p == i then 1 else 0

-- How many of the first `n` states have the parent `i`.
unfoldable pub substates : (ℕ → Option ℕ) → ℕ → ℕ → ℕ
substates parent i zero = 0
substates parent i (suc n) = is_parent i (parent n) + substates parent i n

-- `extra` are the constructions that have been counted and have thrown.
pub record IsCounted (t : Table) (extra : ℕ → ℕ) : Type 0 where
  pub counted :
      (i : ℕ)
      → i < t.count
      → (t.state i).substate_count ≡ substates (parent_of t) i t.count + extra i
  pub beyond : (i : ℕ) → t.count ≤ i → extra i ≡ 0

pub IsCounted-cong :
    (t : Table) (extra extra' : ℕ → ℕ)
    → IsCounted t extra
    → ((i : ℕ) → extra i ≡ extra' i)
    → IsCounted t extra'
IsCounted-cong t extra extra' c same = record {
  counted = λ i h. omega (arith, c.counted i h, same i);
  beyond = λ i h. omega (arith, c.beyond i h, same i);
}

substates_next :
    (parent : ℕ → Option ℕ) (i n : ℕ)
    → substates parent i (suc n) ≡ is_parent i (parent n) + substates parent i n
unfolding substates
substates_next parent i n = refl

substates-cong :
    (t t' : Table) (i n : ℕ)
    → ((j : ℕ) → j < n → parent_of t' j ≡ parent_of t j)
    → substates (parent_of t') i n ≡ substates (parent_of t) i n
unfolding substates
substates-cong t t' i zero same = refl
substates-cong t t' i (suc n) same = rw (same n (omega arith)) (
    ap (λ k. is_parent i (parent_of t n) + k)
      (substates-cong t t' i n (λ j h. same j (omega arith))))

-- No state has a parent that is not there.
substates-none :
    (t : Table)
    → IsShaped t
    → (i n : ℕ) → t.count ≤ i
    → n ≤ t.count
    → substates (parent_of t) i n ≡ 0
unfolding substates
substates-none t v i zero h le = refl
substates-none t v i (suc n) h le = elim (Option-cases (parent_of t n)) [
  | inl top ↦ rw top (omega (arith, substates-none t v i n h (omega arith)))
  | inr (p, parent) ↦
      let (hp, lp, c) = v.tree.parents n p (omega arith) parent in
      rw parent (ground (arith, substates-none t v i n h (omega arith)))
]

-- A change that makes no state.
pub same-IsCounted :
    (t t' : Table) (extra more : ℕ → ℕ)
    → IsCounted t extra
    → t'.count ≡ t.count
    → ((j : ℕ) → j < t.count → parent_of t' j ≡ parent_of t j)
    → ((j : ℕ) → j < t.count → (t'.state j).substate_count ≡ (t.state j).substate_count + more j)
    → ((j : ℕ) → t.count ≤ j → more j ≡ 0)
    → IsCounted t' (λ i. extra i + more i)
same-IsCounted t t' extra more c e same plus none_more = record {
  counted = λ i h.
      let h' : i < t.count = omega (arith, e) in
      omega (
        arith,
        plus i h',
        c.counted i h',
        substates-cong t t' i t.count same,
        ap (substates (parent_of t') i) e,
      );
  beyond = λ i h.
      let h' : t.count ≤ i = omega (arith, e) in omega (arith, c.beyond i h', none_more i h');
}

-- A new state, which its parent has counted.
pub new-IsCounted :
    (t t' : Table) (extra : ℕ → ℕ)
    → IsShaped t
    → IsCounted t extra
    → t'.count ≡ t.count + 1
    → ((j : ℕ) → j < t.count → parent_of t' j ≡ parent_of t j)
    → ((p : ℕ) → parent_of t' t.count ≡ some p → p < t.count)
    → (t'.state t.count).substate_count ≡ 0
    → ((j : ℕ)
        → j < t.count
        → (t'.state j).substate_count
          ≡ (t.state j).substate_count + is_parent j (parent_of t' t.count))
    → IsCounted t' (λ i. extra i + 0)
new-IsCounted t t' extra v c e same old_parent none_yet plus = record {
  counted = λ i h. counted i (omega (arith, e));
  beyond = λ i h. omega (arith, c.beyond i (omega (arith, e)));
}
  where
    all :
        (i : ℕ)
        → substates (parent_of t') i t'.count
          ≡ is_parent i (parent_of t' t.count) + substates (parent_of t) i t.count
    all i =
        ap (substates (parent_of t') i) (e ∙ omega arith)
        ∙ (substates_next (parent_of t') i t.count
            ∙ ap (λ k. is_parent i (parent_of t' t.count) + k) (substates-cong t t' i t.count same))

    itself : is_parent t.count (parent_of t' t.count) ≡ 0
    itself = elim (Option-cases (parent_of t' t.count)) [
      | inl top ↦ rw top refl
      | inr (p, parent) ↦ rw parent (ground (arith, old_parent p parent))
    ]

    counted :
        (i : ℕ)
        → i < t.count + 1
        → (t'.state i).substate_count ≡ substates (parent_of t') i t'.count + (extra i + 0)
    counted i h = elim (Bool-cases (i == t.count)) [
      | inl here ↦
          let same_i : i ≡ t.count = ground arith in
          rw same_i (
            omega (
              arith,
              none_yet,
              all t.count,
              itself,
              c.beyond t.count (omega arith),
              substates-none t v t.count t.count (omega arith) (omega arith),
            ))
      | inr other ↦
          let old : i < t.count = ground arith in omega (arith, plus i old, all i, c.counted i old)
    ]
