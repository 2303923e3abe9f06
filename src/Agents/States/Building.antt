-- ===== src/Agents/States/Building.antt =====
-- Tables of states that programs build: any sequence of constructors but the move constructor,
-- clear_history, on_enter, on_exit, and the recordings of histories by switches.
use android_vendor_sobjectiz.Common.{
  ℕ, ltb, if◌then◌else◌, Option, none, some, List, [], ◌∷◌, arith, inl, inr, Bool-cases,
}
use android_vendor_sobjectiz.Agents.States.{
  Table, State, History, Made, made, throws, make_state, make_substate, make_initial_substate,
  clear_history, set_on_enter, set_on_exit, update_history_in_parent_states,
}
use android_vendor_sobjectiz.Agents.States.Shape.{IsShaped}
use android_vendor_sobjectiz.Agents.States.Constructors.{
  Leaves, make_state-Leaves, make_substate-Leaves, clear_history-IsShaped, set_on_enter-IsShaped,
  set_on_exit-IsShaped, make_initial_substate-Leaves,
}
use android_vendor_sobjectiz.Agents.States.Remembering.{update-IsShaped}
pub mod Counts
pub mod Counting

pub data Action : Type 0 where
  makes_state : Option ℕ → History → Action
  makes_substate makes_initial_substate : ℕ → History → Action
  clears_history sets_on_enter sets_on_exit records_history : ℕ → Action

abbrev pub table_of : Made → Table
table_of (made s t) = t
table_of (throws e t) = t

-- A parent, or a state that is changed, is one that has been made: a call with another number is no
-- call.
unfoldable pub act : Table → Action → Table
act t (makes_state target history) = table_of (make_state target history t)
act t (makes_substate p history) = if ltb p t.count then table_of (make_substate p history t) else t
act t (makes_initial_substate p history) =
    if ltb p t.count then table_of (make_initial_substate p history t) else t
act t (clears_history s) = if ltb s t.count then clear_history s t else t
act t (sets_on_enter s) = if ltb s t.count then set_on_enter s t else t
act t (sets_on_exit s) = if ltb s t.count then set_on_exit s t else t
act t (records_history s) = if ltb s t.count then update_history_in_parent_states s t else t

unfoldable pub build : Table → List Action → Table
build t [] = t
build t (a ∷ actions) = build (act t a) actions

abbrev pub empty_table : State → Table
empty_table s = record { count = 0; state = λ i. s }

made-IsShaped :
    (t : Table) (parent : Option ℕ) (r : Made) → Leaves t parent r → IsShaped (table_of r)
made-IsShaped t parent (made s t') l = l.0
made-IsShaped t parent (throws e t') l = l.0

pub act-IsShaped : (t : Table) (a : Action) → IsShaped t → IsShaped (act t a)
unfolding act
act-IsShaped t (makes_state target history) v =
    made-IsShaped t none _ (make_state-Leaves t v target history)
act-IsShaped t (makes_substate p history) v = elim (Bool-cases (ltb p t.count)) [
  | inl h ↦
      rw (h, act) (made-IsShaped t (some p) _ (make_substate-Leaves t v p history (ground arith)))
  | inr other ↦ rw (other, act) v
]
act-IsShaped t (makes_initial_substate p history) v = elim (Bool-cases (ltb p t.count)) [
  | inl h ↦
      rw (h, act)
        (made-IsShaped t (some p) _ (make_initial_substate-Leaves t v p history (ground arith)))
  | inr other ↦ rw (other, act) v
]
act-IsShaped t (clears_history s) v = elim (Bool-cases (ltb s t.count)) [
  | inl h ↦ rw (h, act) (clear_history-IsShaped t v s (ground arith))
  | inr other ↦ rw (other, act) v
]
act-IsShaped t (sets_on_enter s) v = elim (Bool-cases (ltb s t.count)) [
  | inl h ↦ rw (h, act) (set_on_enter-IsShaped t v s (ground arith))
  | inr other ↦ rw (other, act) v
]
act-IsShaped t (sets_on_exit s) v = elim (Bool-cases (ltb s t.count)) [
  | inl h ↦ rw (h, act) (set_on_exit-IsShaped t v s (ground arith))
  | inr other ↦ rw (other, act) v
]
act-IsShaped t (records_history s) v = elim (Bool-cases (ltb s t.count)) [
  | inl h ↦ rw (h, act) (update-IsShaped s t v (ground arith))
  | inr other ↦ rw (other, act) v
]

build_from : (t : Table) (actions : List Action) → IsShaped t → IsShaped (build t actions)
unfolding build
build_from t [] v = v
build_from t (a ∷ actions) v = build_from (act t a) actions (act-IsShaped t a v)

pub empty-IsShaped : (s : State) → IsShaped (empty_table s)
empty-IsShaped s = record {
  tree = record {
    level_lt = λ i h. absurd (omega arith);
    top = λ i h. absurd (omega arith);
    parents = λ i p h. absurd (omega arith);
  };
  initials = λ i c h. absurd (omega arith);
  lasts = λ i c h. absurd (omega arith);
}

pub build-IsShaped : (s : State) (actions : List Action) → IsShaped (build (empty_table s) actions)
build-IsShaped s actions = build_from (empty_table s) actions (empty-IsShaped s)
