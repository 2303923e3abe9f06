-- ===== src/Agents/Examples.antt =====
-- Agents: runs on a small table of states, and the theorems at inputs that meet their hypotheses.
use android_vendor_sobjectiz.Common.{
  ℕ, suc, ◌≡◌, ◌⊎◌, ◌≢◌, refl, arith, ◌==◌, leb, if◌then◌else◌, Bool, true, false, none, some, List,
  [], ◌∷◌, ◌++◌, ◌+◌, ◌<◌, operation_enabled_only_on_agent_working_thread, agent_unknown_state,
}
use android_vendor_sobjectiz.Agents.States.{
  Table, State, no_history, shallow, deep, parent_of, level_of, max_deep, enters,
  actual_state_to_enter, make_state, make_substate, make_initial_substate, set_on_enter,
  set_on_exit,
}
use android_vendor_sobjectiz.Agents.States.Shape.{IsShaped, Encloses, above, above_of}
use android_vendor_sobjectiz.Agents.States.Building.{
  Action, makes_state, makes_substate, makes_initial_substate, sets_on_enter, sets_on_exit,
  clears_history, records_history, act, build, empty_table, build-IsShaped,
}
use android_vendor_sobjectiz.Agents.States.Building.Counts.{substates}
use android_vendor_sobjectiz.Agents.States.Building.Counting.{refusals, build-counted}
use android_vendor_sobjectiz.Agents.States.Entering.{Leads, actual_state_to_enter-Leads}
use android_vendor_sobjectiz.Agents.Switch.{Agent, is_target, throws, so_change_state}
use android_vendor_sobjectiz.Agents.Switch.Changes.{IsReady, Changes, so_change_state-Changes}
use android_vendor_sobjectiz.Agents.Switch.Returns.{
  switch_all, AreOutside, switch_all-deep, switch_all-shallow,
}
use android_vendor_sobjectiz.Agents.Dispatch.{find_event_handler}
use android_vendor_sobjectiz.Agents.Dispatch.Nearest.{Nearest, find_event_handler-Nearest}
use android_vendor_sobjectiz.Agents.Demands.{
  Demand, demand_handler_on_message, exec, so_create_execution_hint, call_handler,
}
use android_vendor_sobjectiz.Agents.Demands.Hints.{exec-so_create_execution_hint}
use android_vendor_sobjectiz.Subscriptions.Data.{Info}
use android_vendor_sobjectiz.Subscriptions.VectorBased
use android_vendor_sobjectiz.Subscriptions.VectorBased.Laws as VectorLaws

-- State 0 is the default one, 1 has a deep history and the substates 2, with a shallow history, and
-- 5; 3 and 4 lie inside 2; 6 is of no agent. The second initial substate of 1 throws.
abbrev actions : List Action
actions =
    makes_state (some 7) no_history
    ∷ makes_state (some 7) deep
    ∷ makes_initial_substate 1 shallow
    ∷ makes_initial_substate 2 no_history
    ∷ makes_substate 2 no_history
    ∷ makes_substate 1 no_history
    ∷ makes_initial_substate 1 no_history
    ∷ makes_state none no_history
    ∷ sets_on_enter 1
    ∷ sets_on_exit 4
    ∷ []

abbrev blank : State
blank = record {
  target_agent = none;
  parent_state = none;
  initial_substate = none;
  state_history = no_history;
  last_active_substate = none;
  nested_level = 0;
  substate_count = 0;
  on_enter = false;
  on_exit = false;
  time_limit = false;
}

abbrev table : Table
table = build (empty_table blank) actions

table-IsShaped : IsShaped table
table-IsShaped = build-IsShaped blank actions

abbrev agent : Agent
agent = record {
  id = 7;
  states = table;
  current_state = 0;
  st_default = 0;
  awaiting = 6;
  working_thread_id = 2;
}

count_of : table.count ≡ 7
unfolding build act make_state make_substate make_initial_substate set_on_enter set_on_exit
count_of = refl

-- An agent enters state 3 in the end, and the histories around it record it.
abbrev all_actions : List Action
all_actions = actions ++ records_history 3 ∷ clears_history 2 ∷ []

build-counted_example :
    let t = build (empty_table blank) all_actions in
    IsShaped t
    × ((i : ℕ)
        → i < t.count
        → (t.state i).substate_count
          ≡ substates (parent_of t) i t.count + refusals (empty_table blank) all_actions i)
build-counted_example = build-counted blank all_actions

actual_state_to_enter-Leads_example : Leads table 1 (actual_state_to_enter max_deep table 1)
actual_state_to_enter-Leads_example =
    actual_state_to_enter-Leads table table-IsShaped max_deep 1 (omega (arith, count_of))
      (omega arith)

agent-IsReady : IsReady agent
unfolding build act make_state make_substate make_initial_substate set_on_enter set_on_exit
agent-IsReady = record { shaped = table-IsShaped; made = omega (arith, count_of); simple = refl }

-- From the working thread of the agent.
abbrev home : ℕ
home = 2

so_change_state-Changes_example :
    ((home ≢ 2)
      × (so_change_state 2 1 agent ≡ throws operation_enabled_only_on_agent_working_thread))
    ⊎ ((home ≡ 2)
        × (is_target agent 1 ≡ false)
        × (so_change_state 2 1 agent ≡ throws agent_unknown_state))
    ⊎ ((home ≡ 2) × (is_target agent 1 ≡ true) × Changes agent 1 (so_change_state 2 1 agent))
so_change_state-Changes_example =
    so_change_state-Changes agent agent-IsReady 2 1 (omega (arith, count_of))

inside-deep : Encloses table 1 4
unfolding build act make_state make_substate make_initial_substate set_on_enter set_on_exit above
inside-deep = (omega (arith, levels.0, levels.1), refl)
  where
    levels : (level_of table 1 ≡ 0) × (level_of table 4 ≡ 2)
    levels = (refl, refl)

inside-shallow : Encloses table 2 4
unfolding build act make_state make_substate make_initial_substate set_on_enter set_on_exit above
inside-shallow = (omega (arith, levels.0, levels.1), refl)
  where
    levels : (level_of table 2 ≡ 1) × (level_of table 4 ≡ 2)
    levels = (refl, refl)

distinct : (m n : ℕ) → (m == n) ≡ false → m ≢ n
distinct m n e q = ground (arith, e, q)

outside :
    (u : ℕ)
    → (above_of table 0 (level_of table u) == u) ≡ false
    → (above_of table 5 (level_of table u) == u) ≡ false
    → AreOutside table u (0 ∷ 5 ∷ [])
outside u e f = (
  omega (arith, count_of),
  λ i. distinct _ _ e i.1,
  (omega (arith, count_of), λ i. distinct _ _ f i.1, tt),
)

leaf : (table.state 4).substate_count ≡ 0
unfolding build act make_state make_substate make_initial_substate set_on_enter set_on_exit
leaf = refl

-- The agent goes to state 4, then to 0: state 1 leads back to 4.
switch_all-deep_example :
    actual_state_to_enter max_deep (switch_all (4 ∷ 0 ∷ []) agent).states 1 ≡ enters 4
unfolding build act make_state make_substate make_initial_substate set_on_enter set_on_exit above
switch_all-deep_example =
    switch_all-deep agent table-IsShaped 4 1 (0 ∷ []) (omega (arith, count_of)) leaf inside-deep
      (distinct _ _ refl) (omega (arith, count_of), λ i. distinct _ _ refl i.1, tt) refl

-- The agent goes to state 4, then to 0, then to 5: state 2 leads back into 4.
switch_all-shallow_example :
    Leads
      (switch_all (4 ∷ 0 ∷ 5 ∷ []) agent).states
      (above_of table 4 (suc (level_of table 2)))
      (actual_state_to_enter max_deep (switch_all (4 ∷ 0 ∷ 5 ∷ []) agent).states 2)
unfolding build act make_state make_substate make_initial_substate set_on_enter set_on_exit above
switch_all-shallow_example =
    switch_all-shallow agent table-IsShaped 4 2 (0 ∷ 5 ∷ []) (omega (arith, count_of)) leaf
      inside-shallow (distinct _ _ refl) (outside 2 refl refl) refl

-- The state 1 has a subscription, the state 4 inside it has none.
abbrev subscription : Info
subscription = record { mbox = 1; msg_type = 5; state = 1; handler = 10 }

abbrev store : List Info
store = (VectorBased.ops.create_event_subscription subscription 3 false []).0

find_event_handler-Nearest_example :
    Nearest table
      (VectorBased.ops.query_content store)
      1
      5
      4
      (find_event_handler VectorBased.ops 3 table store 1 5 4)
unfolding build act make_state make_substate make_initial_substate set_on_enter set_on_exit
find_event_handler-Nearest_example =
    find_event_handler-Nearest VectorBased.ops VectorLaws.laws table table-IsShaped.tree store
      (VectorLaws.laws.create_lem subscription 3 false [] VectorLaws.make-IsValid.0).0 3 1 5 4
      (omega (arith, count_of)) (omega arith)

abbrev demand : Demand
demand = record {
  limit = some 3;
  mbox_id = 1;
  msg_type = 5;
  demand_handler = demand_handler_on_message;
}

-- Handlers with a number over 20 are thread safe.
abbrev is_safe : ℕ → Bool
is_safe h = leb 20 h

exec-so_create_execution_hint_example :
    exec VectorBased.ops store agent 2 demand
      (so_create_execution_hint VectorBased.ops store agent is_safe demand)
    ≡ call_handler VectorBased.ops store agent
        (if (so_create_execution_hint VectorBased.ops store agent is_safe demand).is_thread_safe
          then 0
          else 2)
        demand
exec-so_create_execution_hint_example =
    exec-so_create_execution_hint VectorBased.ops store agent is_safe 2 demand tt
