-- ===== src/Coops/Operations.antt =====
-- The operations of the registry: so_5/rt/impl/agent_core.cpp, with the part of coop_t in
-- so_5/rt/agent_coop.cpp that counts usages.
use android_vendor_sobjectiz.Common.{
  ℕ, zero, suc, ◌+◌, ◌-◌, ◌==◌, dec_size, if◌then◌else◌, Bool, true, not, ◌&&◌, ◌||◌, Option, none,
  some, List, [], ◌∷◌, ◌++◌, is_nil, RetCode, coop_with_specified_name_is_already_registered,
  parent_coop_not_found, unable_to_register_coop_during_shutdown, zero_ptr_to_coop,
  coop_define_agent_failed,
}
use android_vendor_sobjectiz.Coops.Data.{
  Coop, Core, children, coop_deregistering, coop_registered, erase, erase_relation, insert,
  insert_relation, is_registered, mem, put_coop,
}

-- decrement_usage_count. The sending of the coop is ready_to_deregister_notify.
unfoldable pub decrement_usage_count : ℕ → Core → Core
decrement_usage_count n core =
    let c = core.coops n in
    let k = dec_size c.reference_count in
    if (k == 0) && is_registered c.registration_status
    then record (put_coop n
        (record c { reference_count = k; registration_status = coop_deregistering }) core) {
          final_dereg_chain = core.final_dereg_chain ++ n ∷ [];
        }
    else put_coop n (record c { reference_count = k }) core

abbrev pub increment_usage_count : ℕ → ℕ → Core → Core
increment_usage_count n k core =
    put_coop n (record (core.coops n) { reference_count = (core.coops n).reference_count + k }) core

-- What is thrown: an exception_t with its code, or another std::exception.
pub data Thrown : Type 0 where
  exception_t : RetCode → Thrown
  std_exception : Thrown

pub data Outcome (E : Type 0) : Type 0 where
  done : Core → Outcome E
  throws : E → Core → Outcome E

-- do_registration_specific_actions without an exception: every agent is bound, with a usage for it,
-- the parent gets a usage for its child, and the coop one for being registered.
unfoldable pub do_registration_specific_actions : ℕ → Option ℕ → Core → Core
do_registration_specific_actions n parent core =
    let bound = increment_usage_count n (core.coops n).agent_count core in
    let linked = put_coop n (record (bound.coops n) { parent_coop_ptr = parent }) bound in
    let known : Core = elim parent [ none ↦ linked | some p ↦ increment_usage_count p 1 linked ] in
    let registered =
      put_coop n (record (known.coops n) { registration_status = coop_registered }) known in
    increment_usage_count n 1 registered

-- `failure` is the exception, if there is one, that do_registration_specific_actions throws.
unfoldable pub parent_child_relation : ℕ → Option ℕ → Option Thrown → Core → Outcome Thrown
parent_child_relation n none none core = done (do_registration_specific_actions n none core)
parent_child_relation n none (some e) core = throws e core
parent_child_relation n (some p) none core = done (
    do_registration_specific_actions n (some p)
      (record core { parent_child_relations = insert_relation p n core.parent_child_relations }))
parent_child_relation n (some p) (some e) core = throws e (record core {
  parent_child_relations = erase_relation p n (insert_relation p n core.parent_child_relations);
})

unfoldable pub update_registered_coop_map :
    ℕ → Coop → Option ℕ → Option Thrown → Core → Outcome Thrown
update_registered_coop_map n c parent failure core =
    let added = record (put_coop n c core) {
      registered_coop = insert n core.registered_coop;
      total_agent_count = core.total_agent_count + c.agent_count;
    } in
    elim (parent_child_relation n parent failure added) [
      | done r ↦ done r
      | throws e r ↦ throws e (record r {
        total_agent_count = r.total_agent_count - c.agent_count;
        registered_coop = erase n r.registered_coop;
      })
    ]

-- The catch clauses of register_coop: an exception_t goes on, any other exception becomes one.
abbrev pub rethrown : Thrown → RetCode
rethrown (exception_t e) = e
rethrown std_exception = coop_define_agent_failed

abbrev pub caught : Outcome Thrown → Outcome RetCode
caught (done r) = done r
caught (throws e r) = throws (rethrown e) r

-- register_coop up to the end of the try block, for a pointer to a coop or a null one. The coop has
-- the usage of its guard then.
unfoldable pub register_coop : ℕ → Option Coop → Option Thrown → Core → Outcome RetCode
register_coop n none failure core = throws zero_ptr_to_coop core
register_coop n (some coop) failure core =
    let c = record coop { reference_count = coop.reference_count + 1 } in
    caught (
      if core.deregistration_started
      then throws (exception_t unable_to_register_coop_during_shutdown) core
      else if mem n core.registered_coop || mem n core.deregistered_coop
      then throws (exception_t coop_with_specified_name_is_already_registered) core
      else elim c.parent_coop_name [
        | none ↦ update_registered_coop_map n c none failure core
        | some p ↦
            if mem p core.registered_coop
            then update_registered_coop_map n c (some p) failure core
            else throws (exception_t parent_coop_not_found) core
      ])

-- The names collected, the exception that leads to abort, or that the fuel ran out.
pub data Collected : Type 0 where
  collected : List ℕ → Collected
  unexpected goes_on : Collected

-- The inner loop of collect_coops, over the children of a coop.
unfoldable pub visit : Core → List ℕ → Option (List ℕ)
visit core [] = some []
visit core (c ∷ cs) =
    let rest = visit core cs in
    if mem c core.registered_coop
    then elim rest [ none ↦ none | some xs ↦ some (c ∷ xs) ]
    else if mem c core.deregistered_coop
    then rest
    else none

-- collect_coops: m_coops_names_to_process is `before` and `after`, and the loop stands between them.
unfoldable pub collect_coops : ℕ → Core → List ℕ → List ℕ → Collected
collect_coops fuel core before [] = collected before
collect_coops zero core before (n ∷ after) = goes_on
collect_coops (suc fuel) core before (n ∷ after) =
    elim (visit core (children n core.parent_child_relations)) [
      | none ↦ unexpected
      | some cs ↦ collect_coops fuel core (before ++ n ∷ []) (after ++ cs)
    ]

unfoldable pub modify_registered_and_deregistered_maps : List ℕ → Core → Core
modify_registered_and_deregistered_maps [] core = core
modify_registered_and_deregistered_maps (n ∷ ns) core =
    modify_registered_and_deregistered_maps ns (record core {
      deregistered_coop = insert n core.deregistered_coop;
      registered_coop = erase n core.registered_coop;
    })

-- The first stage of deregister_coop: the coops that the second stage is for.
pub data FirstStage : Type 0 where
  to_dereg : List ℕ → Core → FirstStage
  not_found aborts runs_on : FirstStage

unfoldable pub first_stage : ℕ → ℕ → Core → FirstStage
first_stage fuel root core =
    if mem root core.deregistered_coop
    then to_dereg [] core
    else if not (mem root core.registered_coop)
    then not_found
    else elim (collect_coops fuel core [] (root ∷ [])) [
      | collected ns ↦ to_dereg ns (modify_registered_and_deregistered_maps ns core)
      | unexpected ↦ aborts
      | goes_on ↦ runs_on
    ]

-- The agents get their final demands, and the usage for being registered goes.
unfoldable pub do_deregistration_specific_actions : ℕ → ℕ → Core → Core
do_deregistration_specific_actions reason n core =
    decrement_usage_count n (put_coop n (record (core.coops n) { dereg_reason = reason }) core)

-- dereg_reason::shutdown.
abbrev pub shutdown : ℕ
shutdown = 1

-- The loop of deregister_all_coop over the registered coops.
unfoldable pub shut_all : List ℕ → Core → Core
shut_all [] core = core
shut_all (n ∷ ns) core = shut_all ns (do_deregistration_specific_actions shutdown n core)

unfoldable pub insert_all : List ℕ → List ℕ → List ℕ
insert_all [] xs = xs
insert_all (n ∷ ns) xs = insert_all ns (insert n xs)

unfoldable pub deregister_all_coop : Core → Core
deregister_all_coop core =
    let shut = shut_all core.registered_coop core in
    record shut {
      deregistered_coop = insert_all shut.registered_coop shut.deregistered_coop;
      registered_coop = [];
      deregistration_started = true;
    }

unfoldable pub start_deregistration : Core → Core × Bool
start_deregistration core =
    (record core { deregistration_started = true }, not core.deregistration_started)

unfoldable pub finaly_remove_cooperation_info : ℕ → Core → Core
finaly_remove_cooperation_info n core =
    if not (mem n core.deregistered_coop)
    then core
    else (let removed = core.coops n in
        let rest = record core {
          deregistered_coop = erase n core.deregistered_coop;
          total_agent_count = core.total_agent_count - removed.agent_count;
        } in
        elim removed.parent_coop_ptr [
          | none ↦ rest
          | some p ↦ decrement_usage_count p (record rest {
            parent_child_relations = erase_relation p n rest.parent_child_relations;
          })
        ])

-- What final_deregister_coop returns and whether it signals the end of a shutdown.
pub record Final : Type 0 where
  pub core : Core
  pub need_signal_dereg_finished : Bool
  pub has_coops : Bool

unfoldable pub final_deregister_coop : ℕ → Core → Final
final_deregister_coop n core =
    let r = finaly_remove_cooperation_info n core in
    record {
      core = r;
      need_signal_dereg_finished = r.deregistration_started && is_nil r.deregistered_coop;
      has_coops = not (is_nil r.registered_coop) || not (is_nil r.deregistered_coop);
    }
