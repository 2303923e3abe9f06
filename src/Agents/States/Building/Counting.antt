-- ===== src/Agents/States/Building/Counting.antt =====
-- The counts of substates in the tables that programs build.
use android_vendor_sobjectiz.Common.{
  ℕ, ◌+◌, ◌==◌, ◌&&◌, ltb, leb, if◌then◌else◌, some, List, [], ◌∷◌, ◌≡◌, ◌<◌, refl, arith, inl, inr,
  Bool-cases, Option-cases, initial_substate_already_defined,
}
use android_vendor_sobjectiz.Agents.States.{
  Table, State, History, Made, throws, parent_of, level_of, max_deep, put, add, new_state,
  make_state, make_substate, make_initial_substate, clear_history, set_on_enter, set_on_exit,
}
use android_vendor_sobjectiz.Agents.States.Shape.{IsShaped}
use android_vendor_sobjectiz.Agents.States.Remembering.{update-IsSame}
use android_vendor_sobjectiz.Agents.States.Building.{
  Action, makes_state, makes_substate, makes_initial_substate, clears_history, sets_on_enter,
  sets_on_exit, records_history, table_of, act, build, empty_table, act-IsShaped, empty-IsShaped,
  build-IsShaped,
}
use android_vendor_sobjectiz.Agents.States.Building.Counts.{
  substates, IsCounted, IsCounted-cong, same-IsCounted, new-IsCounted,
}

abbrev pub is_refusal : Made → ℕ
is_refusal (throws initial_substate_already_defined t) = 1
is_refusal _ = 0

-- Whether an action is the construction of a second initial substate of `i`, which throws.
unfoldable pub refused : Table → Action → ℕ → ℕ
refused t (makes_initial_substate p history) i =
    if ltb p t.count && (p == i) then is_refusal (make_initial_substate p history t) else 0
refused t _ i = 0

unfoldable pub refusals : Table → List Action → ℕ → ℕ
refusals t [] i = 0
refusals t (a ∷ actions) i = refused t a i + refusals (act t a) actions i

module _ (t : Table) (extra : ℕ → ℕ) (v : IsShaped t) (c : IsCounted t extra) where
  -- A change that makes no state and counts none.
  kept :
      (t' : Table)
      → t'.count ≡ t.count
      → ((j : ℕ) → j < t.count → parent_of t' j ≡ parent_of t j)
      → ((j : ℕ) → j < t.count → (t'.state j).substate_count ≡ (t.state j).substate_count)
      → IsCounted t' (λ i. extra i + 0)
  kept t' e same plus =
      same-IsCounted t t' extra (λ i. 0) c e same (λ j h. omega (arith, plus j h)) (λ j h. refl)

  -- The table after the delegated constructor.
  abbrev delegated : ℕ → History → Table
  delegated p history =
      add (put t p (record (t.state p) { substate_count = (t.state p).substate_count + 1 }))
        (new_state (t.state p).target_agent (some p) (level_of t p + 1) history)

  initial-IsCounted :
      (p : ℕ) (history : History)
      → p < t.count
      → IsCounted
          (table_of (make_initial_substate p history t))
          (λ i. extra i + (if p == i then is_refusal (make_initial_substate p history t) else 0))
  unfolding make_substate make_initial_substate
  initial-IsCounted p history h = elim (Bool-cases (leb max_deep (level_of t p + 1))) [
    | inl deep ↦
        rw (deep, make_initial_substate)
          (same-IsCounted t t extra _ c refl (λ j l. refl) (λ j l. ground arith)
            (λ j l. ground arith))
    | inr room ↦ elim (Option-cases ((delegated p history).state p).initial_substate) [
      | inl free ↦
          rw (room, free, make_initial_substate)
            (IsCounted-cong _ (λ i. extra i + 0) _
              (new-IsCounted t
                (put (delegated p history) p
                  (record ((delegated p history).state p) { initial_substate = some t.count }))
                extra v c refl (λ j l. ground arith) (λ q e. ground arith) (ground arith)
                (λ j l. ground arith))
              (λ i. ground arith))
      | inr (i, taken) ↦
          rw (room, taken, make_initial_substate)
            (same-IsCounted t (record (delegated p history) { count = t.count }) extra _ c refl
              (λ j l. ground arith) (λ j l. ground arith) (λ j l. ground arith))
    ]
  ]

  act-IsCounted : (a : Action) → IsCounted (act t a) (λ i. extra i + refused t a i)
  unfolding act refused make_state make_substate make_initial_substate clear_history set_on_enter
      set_on_exit
  act-IsCounted (makes_state target _) =
      new-IsCounted t _ extra v c refl (λ j h. ground arith) (λ p e. absurd (ground arith))
        (ground arith) (λ j h. ground arith)
  act-IsCounted (makes_substate p _) = elim (Bool-cases (ltb p t.count)) [
    | inl h ↦ elim (Bool-cases (leb max_deep (level_of t p + 1))) [
      | inl deep ↦ rw (h, deep, act) (kept t refl (λ j h. refl) (λ j h. refl))
      | inr room ↦
          rw (h, room, act)
            (new-IsCounted t _ extra v c refl (λ j l. ground arith) (λ q e. ground arith)
              (ground arith) (λ j l. ground arith))
    ]
    | inr other ↦ rw (other, act) (kept t refl (λ j h. refl) (λ j h. refl))
  ]
  act-IsCounted (makes_initial_substate p history) = elim (Bool-cases (ltb p t.count)) [
    | inl h ↦ rw (h, act) (initial-IsCounted p history (ground arith))
    | inr other ↦ rw (other, act) (kept t refl (λ j h. refl) (λ j h. refl))
  ]
  act-IsCounted (clears_history s) = elim (Bool-cases (ltb s t.count)) [
    | inl h ↦ rw (h, act) (kept _ refl (λ j l. ground arith) (λ j l. ground arith))
    | inr other ↦ rw (other, act) (kept t refl (λ j h. refl) (λ j h. refl))
  ]
  act-IsCounted (sets_on_enter s) = elim (Bool-cases (ltb s t.count)) [
    | inl h ↦ rw (h, act) (kept _ refl (λ j l. ground arith) (λ j l. ground arith))
    | inr other ↦ rw (other, act) (kept t refl (λ j h. refl) (λ j h. refl))
  ]
  act-IsCounted (sets_on_exit s) = elim (Bool-cases (ltb s t.count)) [
    | inl h ↦ rw (h, act) (kept _ refl (λ j l. ground arith) (λ j l. ground arith))
    | inr other ↦ rw (other, act) (kept t refl (λ j h. refl) (λ j h. refl))
  ]
  act-IsCounted (records_history s) = elim (Bool-cases (ltb s t.count)) [
    | inl h ↦
        let e = update-IsSame s t in
        rw (h, act) (kept _ e.counts (λ j l. e.parents j) (λ j l. e.substates j))
    | inr other ↦ rw (other, act) (kept t refl (λ j h. refl) (λ j h. refl))
  ]

build-IsCounted :
    (t : Table) (extra : ℕ → ℕ) (actions : List Action)
    → IsShaped t
    → IsCounted t extra
    → IsCounted (build t actions) (λ i. extra i + refusals t actions i)
unfolding build refusals
build-IsCounted t extra [] v c = IsCounted-cong t extra _ c (λ i. omega arith)
build-IsCounted t extra (a ∷ actions) v c =
    IsCounted-cong _ (λ i. extra i + refused t a i + refusals (act t a) actions i) _
      (build-IsCounted (act t a) (λ i. extra i + refused t a i) actions (act-IsShaped t a v)
        (act-IsCounted t extra v c a))
      (λ i. omega arith)

-- Whatever a program does with the constructors of states, but the move constructor, with
-- clear_history, on_enter and on_exit, and whatever histories switches record, exceptions of the
-- constructors included: the states form trees of less than 16 levels, an initial substate is a child
-- of its state, a remembered substate lies inside it, and m_substate_count of a state is the number of
-- its substates and of the constructions of a second initial substate of it, which throw after they
-- have counted.
pub build-counted :
    (s : State) (actions : List Action)
    → let t = build (empty_table s) actions in
      IsShaped t
      × ((i : ℕ)
          → i < t.count
          → (t.state i).substate_count
            ≡ substates (parent_of t) i t.count + refusals (empty_table s) actions i)
build-counted s actions = (
  build-IsShaped s actions,
  (IsCounted-cong _ _ (refusals (empty_table s) actions)
      (build-IsCounted (empty_table s) (λ i. 0) actions (empty-IsShaped s)
        (record { counted = λ i h. absurd (omega arith); beyond = λ i h. refl }))
      (λ i. omega arith)).counted,
)
