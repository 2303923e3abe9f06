-- ===== src/Agents/Switch/Calls.antt =====
-- Which states a switch leaves and enters, and in what order.
use android_vendor_sobjectiz.Common.{
  ℕ, zero, suc, ◌+◌, ◌==◌, leb, min, Bool, true, false, not, ◌&&◌, Option, none, some, List, [],
  ◌∷◌, ◌++◌, ◌≡◌, ◌≢◌, ◌<◌, ◌≤◌, refl, sym, ap, ◌∙◌, arith, inl, inr, Bool-cases,
}
use android_vendor_sobjectiz.Agents.States.{Table, parent_of, level_of, path_of}
use android_vendor_sobjectiz.Agents.States.Shape.{
  IsTree, above, above_of, above_self, level-above, above-above, parent-cases,
}
use android_vendor_sobjectiz.Agents.States.Paths.{path_of_lem, Encloses-count}
use android_vendor_sobjectiz.Agents.Switch.{
  same_entry, find_diff, first_diff, states_left, states_entered, find_in_path,
}
use android_vendor_sobjectiz.Agents.Switch.Levels.{
  keep, downs, outers, downs_cong, outers_cong, Holds, leave_states_lem, enter_states_lem,
  find_in_path_lem, find_diff_lem,
}

-- A state and those around it, read off the parents: from the innermost and from the outermost.
pub innermost_first : (ℕ → Option ℕ) → ℕ → ℕ → List ℕ
innermost_first parent zero s = s ∷ []
innermost_first parent (suc n) s = elim (parent s) [
  | none ↦ s ∷ []
  | some p ↦ s ∷ innermost_first parent n p
]

pub outermost_first : (ℕ → Option ℕ) → ℕ → ℕ → List ℕ
outermost_first parent zero s = s ∷ []
outermost_first parent (suc n) s = elim (parent s) [
  | none ↦ s ∷ []
  | some p ↦ outermost_first parent n p ++ s ∷ []
]

module _ (t : Table) (tree : IsTree t) where
  holds : (s : ℕ) → s < t.count → Holds (level_of t) (path_of t s) (above_of t s) (level_of t s)
  holds s h k l = (path_of_lem t tree s k h l, level-above t tree s k h l)

  downs_above_cong :
      (n s p : ℕ) (f g : ℕ → ℕ) → ((k : ℕ) → k ≤ n → f k ≡ g k) → downs n f ≡ downs n g
  downs_above_cong zero s p f g h = ground (arith, h 0)
  downs_above_cong (suc n) s p f g h =
      ground (arith, h (suc n), downs_above_cong n s p f g (λ k l. h k (omega arith)))

  outers_above_cong :
      (n s p : ℕ) (f g : ℕ → ℕ) → ((k : ℕ) → k ≤ n → f k ≡ g k) → outers n f ≡ outers n g
  outers_above_cong zero s p f g h = ground (arith, h 0)
  outers_above_cong (suc n) s p f g h =
      ground (arith, h (suc n), outers_above_cong n s p f g (λ k l. h k (omega arith)))

  above_up :
      (n s p k : ℕ)
      → parent_of t s ≡ some p
      → k ≤ n
      → above (parent_of t) (suc n) s k ≡ above (parent_of t) n p k
  unfolding above
  above_up n s p k e l = let up : (k == suc n) ≡ false = ground arith in rw (up, e, above) refl

  above_here : (n s : ℕ) → above (parent_of t) (suc n) s (suc n) ≡ s
  unfolding above
  above_here n s = ground arith

  innermost_first-downs :
      (n s : ℕ)
      → level_of t s ≡ n
      → s < t.count
      → innermost_first (parent_of t) n s ≡ downs n (above (parent_of t) n s)
  unfolding innermost_first
  innermost_first-downs zero s e h = unfold above in refl
  innermost_first-downs (suc n) s e h =
      let (p, parent) = parent-cases t tree s h (omega arith) in
      let (hp, lp, c) = tree.parents s p h parent in
      let rest = innermost_first-downs n p (omega arith) hp in
      let same =
        downs_above_cong n s p (above (parent_of t) (suc n) s) (above (parent_of t) n p)
          (λ k l. above_up n s p k parent l) in
      rw (parent, innermost_first) (ground (arith, rest, same, above_here n s))

  outermost_first-outers :
      (n s : ℕ)
      → level_of t s ≡ n
      → s < t.count
      → outermost_first (parent_of t) n s ≡ outers n (above (parent_of t) n s)
  unfolding outermost_first
  outermost_first-outers zero s e h = unfold above in refl
  outermost_first-outers (suc n) s e h =
      let (p, parent) = parent-cases t tree s h (omega arith) in
      let (hp, lp, c) = tree.parents s p h parent in
      let rest = outermost_first-outers n p (omega arith) hp in
      let same =
        outers_above_cong n s p (above (parent_of t) (suc n) s) (above (parent_of t) n p)
          (λ k l. above_up n s p k parent l) in
      rw (parent, outermost_first) (ground (arith, rest, same, above_here n s))

  -- A search in the path of `s` finds the states around it.
  pub is_active_lem :
      (s x : ℕ)
      → s < t.count
      → find_in_path (level_of t s + 1) 0 x (path_of t s)
        ≡ (leb (level_of t x) (level_of t s) && (above_of t s (level_of t x) == x))
  is_active_lem s x h =
      find_in_path_lem (level_of t) (path_of t s) (above_of t s) (level_of t s + 1) 0 x
        (λ k l l'. holds s h k (omega arith))
      ∙ ground arith

  -- Two different states without substates.
  module _ (s s' : ℕ) (h : s < t.count) (h' : s' < t.count) (ne : s ≢ s')
      (leaf : (t.state s).substate_count ≡ 0) (leaf' : (t.state s').substate_count ≡ 0) where
    f : ℕ → ℕ
    f = above_of t s

    g : ℕ → ℕ
    g = above_of t s'

    entries :
        (k : ℕ)
        → k ≤ level_of t s
        → k ≤ level_of t s'
        → same_entry (path_of t s k) (path_of t s' k) ≡ (f k == g k)
    unfolding f g
    entries k l l' = rw ((holds s h k l).0, (holds s' h' k l').0) refl

    fd : ℕ
    fd = first_diff t s s'

    -- The states cannot agree at the lower one of their levels.
    apart_at_min : f (min (level_of t s) (level_of t s')) ≢ g (min (level_of t s) (level_of t s'))
    unfolding f g
    apart_at_min e = elim (Bool-cases (leb (level_of t s) (level_of t s'))) [
      | inl le ↦
          let m : min (level_of t s) (level_of t s') ≡ level_of t s = ground arith in
          let at : above_of t s' (level_of t s) ≡ s = sym (rw m at e) ∙ above_self t tree s in
          absurd (omega (arith, leaf, Encloses-count t tree s s' h' ne (ground arith, at)))
      | inr gt ↦
          let m : min (level_of t s) (level_of t s') ≡ level_of t s' = ground arith in
          let at : above_of t s (level_of t s') ≡ s' = (rw m at e) ∙ above_self t tree s' in
          absurd (
            omega (arith, leaf', Encloses-count t tree s' s h (λ q. ne (sym q)) (ground arith, at)))
    ]

    first_diff_lem :
        (fd ≤ level_of t s) × (fd ≤ level_of t s') × ((k : ℕ) → k < fd → f k ≡ g k) × (f fd ≢ g fd)
    unfolding fd first_diff
    first_diff_lem =
        let m = min (level_of t s) (level_of t s') in
        let (a, b, c, d) = find_diff_lem m 0 (path_of t s) (path_of t s') in
        (
          omega (arith, b),
          omega (arith, b),
          λ k l.
              (let e = c k (omega arith) l in
                let q = entries k (omega (arith, b, l)) (omega (arith, b, l)) in
                ground (arith, e, q)),
          elim d [
            | inl end ↦
                (let e : find_diff m 0 (path_of t s) (path_of t s') ≡ m = omega (arith, end) in
                  rw e apart_at_min)
            | inr differ ↦
                (let q =
                    entries (find_diff m 0 (path_of t s) (path_of t s')) (omega (arith, b))
                      (omega (arith, b)) in
                  ground (arith, differ, q))
          ],
        )

    apart_from : (k : ℕ) → k ≤ level_of t s → k ≤ level_of t s' → fd ≤ k → f k ≢ g k
    unfolding f g
    apart_from k l l' le e =
        let (a, b, c, d) = first_diff_lem in
        d (
          sym (above-above t tree s k fd h l le)
          ∙ (ap (λ x. above_of t x fd) e ∙ above-above t tree s' k fd h' l' le))

    -- A state is around one of the two.
    abbrev is_in : ℕ → ℕ → Bool
    is_in u x = leb (level_of t x) (level_of t u) && (above_of t u (level_of t x) == x)

    left_at : (k : ℕ) → k ≤ level_of t s → leb fd (level_of t (f k)) ≡ not (is_in s' (f k))
    unfolding f
    left_at k l =
        let (a, b, c, d) = first_diff_lem in
        let lk = level-above t tree s k h l in
        elim (Bool-cases (leb fd k)) [
          | inl from ↦
              let apart = apart_from k l in
              let apart' : leb k (level_of t s') ≡ true → above_of t s' k ≢ above_of t s k =
                λ y e. apart (ground arith) (ground arith) (unfold g in sym e) in
              elim (Bool-cases (leb k (level_of t s'))) [
                | inl y ↦ let n = apart' y in rw lk (ground arith)
                | inr y ↦ rw lk (ground arith)
              ]
          | inr upto ↦
              let e : above_of t s k ≡ above_of t s' k = unfold g in c k (ground arith) in
              rw lk (ground (arith, e, b))
        ]

    entered_at : (k : ℕ) → k ≤ level_of t s' → leb fd (level_of t (g k)) ≡ not (is_in s (g k))
    unfolding g
    entered_at k l =
        let (a, b, c, d) = first_diff_lem in
        let lk = level-above t tree s' k h' l in
        elim (Bool-cases (leb fd k)) [
          | inl from ↦
              let apart' : leb k (level_of t s) ≡ true → above_of t s k ≢ above_of t s' k =
                λ y e. apart_from k (ground arith) l (ground arith) (unfold f in e) in
              elim (Bool-cases (leb k (level_of t s))) [
                | inl y ↦ let n = apart' y in rw lk (ground arith)
                | inr y ↦ rw lk (ground arith)
              ]
          | inr upto ↦
              let e : above_of t s k ≡ above_of t s' k = unfold f in c k (ground arith) in
              rw lk (ground (arith, e, a))
        ]

    pub states_left-keep :
        states_left t s s'
        ≡ keep (λ x. not (is_in s' x)) (innermost_first (parent_of t) (level_of t s) s)
    unfolding states_left fd
    states_left-keep =
        leave_states_lem (level_of t) (path_of t s) (above_of t s) (level_of t s) fd (holds s h)
        ∙ (downs_cong (λ x. leb fd (level_of t x)) (λ x. not (is_in s' x)) (level_of t s)
              (above_of t s) (λ k l. unfold f in left_at k l)
            ∙ ap (keep (λ x. not (is_in s' x)))
                (sym (innermost_first-downs (level_of t s) s refl h)))

    pub states_entered-keep :
        states_entered t s s'
        ≡ keep (λ x. not (is_in s x)) (outermost_first (parent_of t) (level_of t s') s')
    unfolding states_entered fd
    states_entered-keep =
        enter_states_lem (level_of t) (path_of t s') (above_of t s') (level_of t s') fd
          (holds s' h')
        ∙ (outers_cong (λ x. leb fd (level_of t x)) (λ x. not (is_in s x)) (level_of t s')
              (above_of t s') (λ k l. unfold g in entered_at k l)
            ∙ ap (keep (λ x. not (is_in s x)))
                (sym (outermost_first-outers (level_of t s') s' refl h')))
