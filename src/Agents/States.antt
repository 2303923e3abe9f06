-- ===== src/Agents/States.antt =====
-- state_t of so_5/rt/h/state.hpp and so_5/rt/agent.cpp. States are numbered in the order in which they
-- are made; a pointer to a state is its number, and a null pointer is none. Names are left out.
use android_vendor_sobjectiz.Common.{
  ℕ, zero, suc, ◌+◌, ◌==◌, leb, if◌then◌else◌, Bool, true, false, Option, none, some, List, [], ◌∷◌,
  RetCode, state_nesting_is_too_deep, initial_substate_already_defined,
}
pub mod Shape
pub mod Entering
pub mod Making
pub mod Constructors
pub mod Building
pub mod Paths
pub mod Remembering

abbrev pub max_deep : ℕ
max_deep = 16

pub data History : Type 0 where
  no_history shallow deep : History

-- `target_agent` is none for a state of no agent. Of the handlers and the time limit only their
-- presence is kept.
pub record State : Type 0 where
  pub target_agent : Option ℕ
  pub parent_state : Option ℕ
  pub initial_substate : Option ℕ
  pub state_history : History
  pub last_active_substate : Option ℕ
  pub nested_level : ℕ
  pub substate_count : ℕ
  pub on_enter : Bool
  pub on_exit : Bool
  pub time_limit : Bool

-- The states made so far.
pub record Table : Type 0 where
  pub count : ℕ
  pub state : ℕ → State

abbrev pub parent_of : Table → ℕ → Option ℕ
parent_of t s = (t.state s).parent_state

abbrev pub level_of : Table → ℕ → ℕ
level_of t s = (t.state s).nested_level

abbrev pub put : Table → ℕ → State → Table
put t i s = record t { state = λ j. if j == i then s else t.state j }

-- The constructors: the new state's number, or an exception, with the table that they leave.
pub data Made : Type 0 where
  made : ℕ → Table → Made
  throws : RetCode → Table → Made

abbrev pub new_state : Option ℕ → Option ℕ → ℕ → History → State
new_state target parent level history = record {
  target_agent = target;
  parent_state = parent;
  initial_substate = none;
  state_history = history;
  last_active_substate = none;
  nested_level = level;
  substate_count = 0;
  on_enter = false;
  on_exit = false;
  time_limit = false;
}

abbrev pub add : Table → State → Table
add t s = record { count = t.count + 1; state = λ j. if j == t.count then s else t.state j }

-- A state without a parent.
unfoldable pub make_state : Option ℕ → History → Table → Made
make_state target history t = made t.count (add t (new_state target none 0 history))

-- The constructor for a `substate_of`.
unfoldable pub make_substate : ℕ → History → Table → Made
make_substate parent history t =
    let p = t.state parent in
    let level = p.nested_level + 1 in
    if leb max_deep level
    then throws state_nesting_is_too_deep t
    else made t.count (
        add (put t parent (record p { substate_count = p.substate_count + 1 }))
          (new_state p.target_agent (some parent) level history))

-- The constructor for an `initial_substate_of` goes on from there. If it throws, the new object is
-- gone, but the parent keeps its count.
unfoldable pub make_initial_substate : ℕ → History → Table → Made
unfolding make_substate
make_initial_substate parent history t = elim (make_substate parent history t) [
  | throws e t' ↦ throws e t'
  | made s t' ↦ elim (t'.state parent).initial_substate [
    | some i ↦ throws initial_substate_already_defined (record t' { count = t.count })
    | none ↦ made s (put t' parent (record (t'.state parent) { initial_substate = some s }))
  ]
]

pub clear_history : ℕ → Table → Table
clear_history s t = put t s (record (t.state s) { last_active_substate = none })

-- on_enter and on_exit, with some handler.
unfoldable pub set_on_enter : ℕ → Table → Table
set_on_enter s t = put t s (record (t.state s) { on_enter = true })

unfoldable pub set_on_exit : ℕ → Table → Table
set_on_exit s t = put t s (record (t.state s) { on_exit = true })

-- actual_state_to_enter, which runs on fuel; `loops` is that it ran out.
pub data Entry : Type 0 where
  enters : ℕ → Entry
  no_initial : Entry
  loops : Entry

unfoldable pub actual_state_to_enter : ℕ → Table → ℕ → Entry
actual_state_to_enter zero t s = loops
actual_state_to_enter (suc fuel) t s = elim ((t.state s).substate_count == 0) [
  | true ↦ enters s
  | false ↦ elim (t.state s).last_active_substate [
    | some c ↦ actual_state_to_enter fuel t c
    | none ↦ elim (t.state s).initial_substate [
      | none ↦ no_initial
      | some c ↦ actual_state_to_enter fuel t c
    ]
  ]
]

-- A round of update_history_in_parent_states.
abbrev pub remember : ℕ → ℕ → State → State
remember this c p = elim p.state_history [
  | shallow ↦ record p { last_active_substate = some c }
  | deep ↦ record p { last_active_substate = some this }
  | no_history ↦ p
]

-- The loop of update_history_in_parent_states over the parents of `c`. The fuel is the level of `c`.
unfoldable pub update_history : ℕ → ℕ → ℕ → Table → Table
update_history zero this c t = t
update_history (suc fuel) this c t = elim (parent_of t c) [
  | none ↦ t
  | some p ↦ update_history fuel this p (put t p (remember this c (t.state p)))
]

unfoldable pub update_history_in_parent_states : ℕ → Table → Table
unfolding update_history
update_history_in_parent_states s t = update_history (level_of t s) s s t

-- fill_path writes a state and its parents into an array, at their levels.
abbrev pub write : Table → ℕ → (ℕ → Option ℕ) → ℕ → Option ℕ
write t s path k = if k == level_of t s then some s else path k

pub fill_path : ℕ → Table → ℕ → (ℕ → Option ℕ) → ℕ → Option ℕ
fill_path zero t s path = write t s path
fill_path (suc fuel) t s path = elim (parent_of t s) [
  | none ↦ write t s path
  | some p ↦ fill_path fuel t p (write t s path)
]

-- The array of a state, with nothing in it before.
pub path_of : Table → ℕ → ℕ → Option ℕ
unfolding fill_path
path_of t s = fill_path (level_of t s) t s (λ k. none)
