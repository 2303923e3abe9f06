-- ===== src/Coops/World.antt =====
-- The registry with those that use it: threads that register and deregister coops, agents that finish
-- their work, and the thread of the final deregistration. A list of actions is an interleaving of the
-- parts that run under the lock or change one counter.
use android_vendor_sobjectiz.Common.{
  ℕ, zero, suc, ◌+◌, ◌-◌, ◌==◌, leb, if◌then◌else◌, Bool, true, false, Option, none, some, List, [],
  ◌∷◌, ◌++◌, length,
}
use android_vendor_sobjectiz.Coops.Data.{Core, Coop, coop_not_registered, mem, erase}
use android_vendor_sobjectiz.Coops.Operations.{
  Thrown, Outcome, done, throws, register_coop, decrement_usage_count, FirstStage, to_dereg,
  not_found, aborts, runs_on, first_stage, do_deregistration_specific_actions, deregister_all_coop,
  start_deregistration, final_deregister_coop,
}
use android_vendor_sobjectiz.Coops.Counts.{times, one_if}
pub mod Steps
pub mod Safety
pub mod Shutdown
mod Examples

-- `agents` is how many agents of a coop have been bound and have not finished, `guards` how many calls
-- of register_coop for it have not returned, `to_shut` the coops that a second stage of a
-- deregistration has to come to.
pub record World : Type 0 where
  pub core : Core
  pub agents : ℕ → ℕ
  pub guards : ℕ → ℕ
  pub to_shut : List ℕ

pub data Action : Type 0 where
  registers : ℕ → Option ℕ → ℕ → Option Thrown → Action
  registration_returns : ℕ → Action
  deregisters : ℕ → Action
  second_stage : ℕ → ℕ → Action
  agent_finishes : ℕ → Action
  deregisters_all shutdown_starts final_deregisters : Action

abbrev pub make : Option ℕ → ℕ → Coop
make parent agents = record {
  parent_coop_name = parent;
  agent_count = agents;
  reference_count = 0;
  parent_coop_ptr = none;
  registration_status = coop_not_registered;
  dereg_reason = 0;
}

abbrev pub at : ℕ → ℕ → (ℕ → ℕ) → ℕ → ℕ
at n k f m = if m == n then k else f m

-- None is an abort or a loop that does not end. An action that is not enabled does nothing.
pub step : World → Action → Option World
step w (registers n parent agents failure) =
    elim (register_coop n (some (make parent agents)) failure w.core) [
      | done r ↦ some (record w {
        core = r;
        agents = at n (w.agents n + agents) w.agents;
        guards = at n (w.guards n + 1) w.guards;
      })
      | throws e r ↦ some (record w { core = r })
    ]
step w (registration_returns n) =
    if leb 1 (w.guards n)
    then some (record w {
      core = decrement_usage_count n w.core;
      guards = at n (w.guards n - 1) w.guards;
    })
    else some w
step w (deregisters n) = elim (first_stage (length w.core.registered_coop) n w.core) [
  | to_dereg ns r ↦ some (record w { core = r; to_shut = w.to_shut ++ ns })
  | not_found ↦ some w
  | aborts ↦ none
  | runs_on ↦ none
]
step w (second_stage reason n) =
    if mem n w.to_shut
    then some (record w {
      core = do_deregistration_specific_actions reason n w.core;
      to_shut = erase n w.to_shut;
    })
    else some w
step w (agent_finishes n) =
    if leb 1 (w.agents n)
    then some (record w {
      core = decrement_usage_count n w.core;
      agents = at n (w.agents n - 1) w.agents;
    })
    else some w
step w deregisters_all = some (record w { core = deregister_all_coop w.core })
step w shutdown_starts = some (record w { core = (start_deregistration w.core).0 })
step w final_deregisters = elim w.core.final_dereg_chain [
  | [] ↦ some w
  | n ∷ rest ↦ some (record w {
    core = (final_deregister_coop n (record w.core { final_dereg_chain = rest })).core;
  })
]

pub run : World → List Action → Option World
run w [] = some w
run w (a ∷ actions) = elim (step w a) [ none ↦ none | some w' ↦ run w' actions ]

-- agent_core_t when it is made.
abbrev pub start : World
start = record {
  core = record {
    coops = λ n. make none 0;
    registered_coop = [];
    deregistered_coop = [];
    parent_child_relations = [];
    deregistration_started = false;
    total_agent_count = 0;
    final_dereg_chain = [];
  };
  agents = λ n. 0;
  guards = λ n. 0;
  to_shut = [];
}

-- The tokens of a coop: of its agents, of calls that register it, of its place in the map of
-- registered coops, and of the second stage of a deregistration.
abbrev pub tokens : World → ℕ → ℕ
tokens w n = w.agents n + w.guards n + times n w.core.registered_coop + times n w.to_shut
