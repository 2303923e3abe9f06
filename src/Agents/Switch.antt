-- ===== src/Agents/Switch.antt =====
-- so_5/rt/agent.cpp: how an agent changes its state. Enter and exit handlers do not change states.
use android_vendor_sobjectiz.Common.{
  ℕ, zero, suc, ◌+◌, ◌-◌, ◌==◌, leb, min, if◌then◌else◌, Bool, true, false, not, ◌&&◌, ◌||◌, Option,
  none, some, List, [], ◌∷◌, ◌++◌, RetCode, no_initial_substate, agent_unknown_state,
  operation_enabled_only_on_agent_working_thread,
}
use android_vendor_sobjectiz.Agents.States.{
  Table, State, level_of, max_deep, Entry, enters, no_initial, loops, actual_state_to_enter,
  update_history_in_parent_states, path_of,
}
pub mod Levels
pub mod Calls
pub mod Changes
pub mod Histories
pub mod Returns

-- `awaiting` is the state `awaiting_deregistration_state`, which all agents share.
pub record Agent : Type 0 where
  pub id : ℕ
  pub states : Table
  pub current_state : ℕ
  pub st_default : ℕ
  pub awaiting : ℕ
  pub working_thread_id : ℕ

-- What a switch calls: handlers, time limits and the state listeners.
pub data Call : Type 0 where
  on_enter on_exit limit_set_up limit_dropped changed : ℕ → Call

abbrev pub call_on_enter : Table → ℕ → List Call
call_on_enter t s =
    (if (t.state s).on_enter then on_enter s ∷ [] else [])
    ++ (if (t.state s).time_limit then limit_set_up s ∷ [] else [])

abbrev pub call_on_exit : Table → ℕ → List Call
call_on_exit t s =
    (if (t.state s).time_limit then limit_dropped s ∷ [] else [])
    ++ (if (t.state s).on_exit then on_exit s ∷ [] else [])

pub calls_of : (ℕ → List Call) → List ℕ → List Call
calls_of f [] = []
calls_of f (s ∷ ss) = f s ++ calls_of f ss

abbrev pub is_target : Agent → ℕ → Bool
is_target a s = elim (a.states.state s).target_agent [
  | some agent ↦ agent == a.id
  | none ↦ s == a.awaiting
]

abbrev pub same_entry : Option ℕ → Option ℕ → Bool
same_entry none none = true
same_entry (some s) (some s') = s == s'
same_entry _ _ = false

-- The loop that finds the first item that is different in the paths, for `n` more items from `i` on.
pub find_diff : ℕ → ℕ → (ℕ → Option ℕ) → (ℕ → Option ℕ) → ℕ
find_diff zero i old_path new_path = i
find_diff (suc n) i old_path new_path =
    let rest = find_diff n (suc i) old_path new_path in
    if same_entry (old_path i) (new_path i) then rest else i

abbrev pub push : Option ℕ → List ℕ → List ℕ
push none ss = ss
push (some s) ss = s ∷ ss

-- The states of the loop over on_exit handlers, from level `i` down to `first_diff`.
pub leave_states : ℕ → ℕ → (ℕ → Option ℕ) → List ℕ
leave_states zero first_diff path = if leb first_diff 0 then push (path 0) [] else []
leave_states (suc i) first_diff path =
    let rest = leave_states i first_diff path in
    if leb first_diff (suc i) then push (path (suc i)) rest else []

-- The states of the loop over on_enter handlers, for `n` levels from `i` on.
pub enter_states : ℕ → ℕ → (ℕ → Option ℕ) → List ℕ
enter_states zero i path = []
enter_states (suc n) i path = push (path i) (enter_states n (suc i) path)

pub first_diff : Table → ℕ → ℕ → ℕ
unfolding find_diff
first_diff t s s' = find_diff (min (level_of t s) (level_of t s')) 0 (path_of t s) (path_of t s')

pub states_left : Table → ℕ → ℕ → List ℕ
unfolding leave_states first_diff
states_left t s s' = leave_states (level_of t s) (first_diff t s s') (path_of t s)

pub states_entered : Table → ℕ → ℕ → List ℕ
unfolding enter_states first_diff
states_entered t s s' =
    enter_states (level_of t s' + 1 - first_diff t s s') (first_diff t s s') (path_of t s')

unfoldable pub do_state_switch : ℕ → Agent → Agent × List Call
unfolding calls_of states_left states_entered
do_state_switch s a = (
  record a { current_state = s; states = update_history_in_parent_states s a.states },
  calls_of (call_on_exit a.states) (states_left a.states a.current_state s)
      ++ calls_of (call_on_enter a.states) (states_entered a.states a.current_state s),
)

pub data Change : Type 0 where
  ok : Agent → List Call → Change
  throws : RetCode → Change
  endless : Change

-- so_change_state on a thread.
pub so_change_state : ℕ → ℕ → Agent → Change
unfolding do_state_switch
so_change_state thread s a =
    if not (thread == a.working_thread_id)
    then throws operation_enabled_only_on_agent_working_thread
    else if not (is_target a s)
    then throws agent_unknown_state
    else elim (actual_state_to_enter max_deep a.states s) [
      | no_initial ↦ throws no_initial_substate
      | loops ↦ endless
      | enters actual ↦
          if actual == a.current_state
          then ok a []
          else (let r = do_state_switch actual a in ok r.0 (r.1 ++ changed actual ∷ []))
    ]

-- std::find over the path of the current state.
pub find_in_path : ℕ → ℕ → ℕ → (ℕ → Option ℕ) → Bool
find_in_path zero i s path = false
find_in_path (suc n) i s path = same_entry (path i) (some s) || find_in_path n (suc i) s path

pub so_is_active_state : ℕ → Agent → Bool
unfolding find_in_path
so_is_active_state s a =
    find_in_path (level_of a.states a.current_state + 1) 0 s (path_of a.states a.current_state)

pub so_switch_to_awaiting_deregistration_state : ℕ → Agent → Change
unfolding so_change_state
so_switch_to_awaiting_deregistration_state thread a = so_change_state thread a.awaiting a

-- return_to_default_state_if_possible, on the working thread.
pub return_to_default_state_if_possible : Agent → Change
unfolding so_change_state
return_to_default_state_if_possible a =
    if (a.st_default == a.current_state) || (a.awaiting == a.current_state)
    then ok a []
    else so_change_state a.working_thread_id a.st_default a
