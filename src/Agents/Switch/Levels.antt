-- ===== src/Agents/Switch/Levels.antt =====
-- The loops of a state switch, over arrays that hold a state for each level.
use android_vendor_sobjectiz.Common.{
  ℕ, zero, suc, ◌+◌, ◌-◌, ◌==◌, leb, ltb, if◌then◌else◌, Bool, true, false, ◌&&◌, Option, some,
  List, [], ◌∷◌, ◌++◌, ◌≡◌, ◌<◌, ◌≤◌, refl, sym, ◌∙◌, arith, inl, inr, ◌⊎◌, Bool-cases,
}
use android_vendor_sobjectiz.Agents.Switch.{
  same_entry, find_diff, leave_states, enter_states, find_in_path,
}

abbrev pub keep : (ℕ → Bool) → List ℕ → List ℕ
keep P [] = []
keep P (x ∷ xs) = if P x then x ∷ keep P xs else keep P xs

keep-append : (P : ℕ → Bool) (xs ys : List ℕ) → keep P (xs ++ ys) ≡ keep P xs ++ keep P ys
keep-append P [] ys = refl
keep-append P (x ∷ xs) ys = ground (arith, keep-append P xs ys)

-- The levels up to `n`, from the innermost one and from the outermost one.
abbrev pub downs : ℕ → (ℕ → ℕ) → List ℕ
downs zero f = f 0 ∷ []
downs (suc n) f = f (suc n) ∷ downs n f

abbrev pub outers : ℕ → (ℕ → ℕ) → List ℕ
outers zero f = f 0 ∷ []
outers (suc n) f = outers n f ++ f (suc n) ∷ []

pub downs_cong :
    (P Q : ℕ → Bool) (n : ℕ) (f : ℕ → ℕ)
    → ((k : ℕ) → k ≤ n → P (f k) ≡ Q (f k))
    → keep P (downs n f) ≡ keep Q (downs n f)
downs_cong P Q zero f h = ground (arith, h 0)
downs_cong P Q (suc n) f h =
    ground (arith, h (suc n), downs_cong P Q n f (λ k l. h k (omega arith)))

pub outers_cong :
    (P Q : ℕ → Bool) (n : ℕ) (f : ℕ → ℕ)
    → ((k : ℕ) → k ≤ n → P (f k) ≡ Q (f k))
    → keep P (outers n f) ≡ keep Q (outers n f)
outers_cong P Q zero f h = ground (arith, h 0)
outers_cong P Q (suc n) f h = ground (
  arith,
  h (suc n),
  outers_cong P Q n f (λ k l. h k (omega arith)),
  keep-append P (outers n f) (f (suc n) ∷ []),
  keep-append Q (outers n f) (f (suc n) ∷ []),
)

module _ (level : ℕ → ℕ) (path : ℕ → Option ℕ) (f : ℕ → ℕ) where
  -- Up to level `n` the array holds the states `f`.
  abbrev pub Holds : ℕ → Type 0
  Holds n = (k : ℕ) → k ≤ n → (path k ≡ some (f k)) × (level (f k) ≡ k)

  Holds-lower : (n : ℕ) → Holds (suc n) → Holds n
  Holds-lower n h k l = h k (omega arith)

  downs_none : (n fd : ℕ) → Holds n → n < fd → keep (λ x. leb fd (level x)) (downs n f) ≡ []
  downs_none zero fd h l = ground (arith, h 0)
  downs_none (suc n) fd h l = ground (arith, h (suc n), downs_none n fd (Holds-lower n h))

  outers_none : (n fd : ℕ) → Holds n → n < fd → keep (λ x. leb fd (level x)) (outers n f) ≡ []
  outers_none zero fd h l = ground (arith, h 0)
  outers_none (suc n) fd h l = ground (
    arith,
    h (suc n),
    outers_none n fd (Holds-lower n h),
    keep-append (λ x. leb fd (level x)) (outers n f) (f (suc n) ∷ []),
  )

  pub leave_states_lem :
      (n fd : ℕ) → Holds n → leave_states n fd path ≡ keep (λ x. leb fd (level x)) (downs n f)
  unfolding leave_states
  leave_states_lem zero fd h = ground (arith, h 0)
  leave_states_lem (suc n) fd h =
      ground (
        arith,
        h (suc n),
        leave_states_lem n fd (Holds-lower n h),
        downs_none n fd (Holds-lower n h),
      )

  enter_states_last :
      (n i : ℕ)
      → path (i + n) ≡ some (f (i + n))
      → enter_states (suc n) i path ≡ enter_states n i path ++ f (i + n) ∷ []
  unfolding enter_states
  enter_states_last zero i e = ground (arith, e)
  enter_states_last (suc n) i e =
      let rest = enter_states_last n (suc i) (ground arith) in ground (arith, rest)

  pub enter_states_lem :
      (n fd : ℕ)
      → Holds n
      → enter_states (n + 1 - fd) fd path ≡ keep (λ x. leb fd (level x)) (outers n f)
  unfolding enter_states
  enter_states_lem zero fd h = elim (Bool-cases (fd == 0)) [
    | inl here ↦ let e : zero + 1 - fd ≡ 1 = ground arith in rw e (ground (arith, h 0))
    | inr over ↦ let e : zero + 1 - fd ≡ 0 = ground arith in rw e (ground (arith, h 0))
  ]
  enter_states_lem (suc n) fd h = elim (Bool-cases (leb fd (suc n))) [
    | inl here ↦
        let e : suc n + 1 - fd ≡ suc (n + 1 - fd) = ground arith in
        let end : fd + (n + 1 - fd) ≡ suc n = ground arith in
        let before = enter_states_lem n fd (Holds-lower n h) in
        let last = enter_states_last (n + 1 - fd) fd (rw end (h (suc n) (omega arith)).0) in
        rw e (
          last
          ∙ ground (
            arith,
            before,
            end,
            h (suc n),
            keep-append (λ x. leb fd (level x)) (outers n f) (f (suc n) ∷ []),
          ))
    | inr over ↦
        let e : suc n + 1 - fd ≡ 0 = ground arith in
        rw e (sym (outers_none (suc n) fd h (ground arith)))
  ]

  pub find_in_path_lem :
      (n i x : ℕ)
      → ((k : ℕ) → i ≤ k → k < i + n → (path k ≡ some (f k)) × (level (f k) ≡ k))
      → find_in_path n i x path ≡ (leb i (level x) && (ltb (level x) (i + n) && (f (level x) == x)))
  unfolding find_in_path
  find_in_path_lem zero i x h = ground arith
  find_in_path_lem (suc n) i x h =
      let rest = find_in_path_lem n (suc i) x (λ k l l'. h k (omega arith) (omega arith)) in
      ground (arith, rest, h i)

-- Where the search for a difference stops.
pub find_diff_lem :
    (n i : ℕ) (old_path new_path : ℕ → Option ℕ)
    → (i ≤ find_diff n i old_path new_path)
      × (find_diff n i old_path new_path ≤ i + n)
      × ((k : ℕ)
          → i ≤ k
          → k < find_diff n i old_path new_path
          → same_entry (old_path k) (new_path k) ≡ true)
      × ((find_diff n i old_path new_path ≡ i + n)
          ⊎ (same_entry
                (old_path (find_diff n i old_path new_path))
                (new_path (find_diff n i old_path new_path))
              ≡ false))
unfolding find_diff
find_diff_lem zero i old_path new_path =
    (omega arith, omega arith, λ k l l'. absurd (omega arith), inl (omega arith))
find_diff_lem (suc n) i old_path new_path =
    elim (Bool-cases (same_entry (old_path i) (new_path i))) [
      | inr differ ↦
          rw (differ, find_diff)
            (omega arith, omega arith, λ k l l'. absurd (omega arith), inr differ)
      | inl same ↦
          let (a, b, c, d) = find_diff_lem n (suc i) old_path new_path in
          rw (same, find_diff)
            (
              omega arith,
              omega arith,
              λ k l l'. elim (Bool-cases (k == i)) [
                | inl here ↦ let e : k ≡ i = ground arith in rw e same
                | inr other ↦ c k (ground arith) l'
              ],
              elim d [ inl e ↦ inl (omega arith) | inr e ↦ inr e ],
            )
    ]
