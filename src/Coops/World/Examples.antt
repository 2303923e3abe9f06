-- ===== src/Coops/World/Examples.antt =====
-- Cooperations: a run, and the theorems at inputs that meet their hypotheses.
use mathlib.Core.Path.{subst}
use android_vendor_sobjectiz.Common.{
  ◌+◌, ◌==◌, leb, ◌&&◌, ◌≡◌, refl, Option, none, some, List, [], ◌∷◌, length,
  agent_to_disp_binding_failed, zero_ptr_to_coop,
}
use android_vendor_sobjectiz.Coops.Data.{
  mem, insert, erase, insert_relation, erase_relation, children,
}
use android_vendor_sobjectiz.Coops.Operations.{
  exception_t, std_exception, throws, decrement_usage_count, do_registration_specific_actions,
  parent_child_relation, update_registered_coop_map, register_coop, visit, collect_coops,
  modify_registered_and_deregistered_maps, first_stage, do_deregistration_specific_actions,
  deregister_all_coop, shut_all, finaly_remove_cooperation_info, final_deregister_coop,
}
use android_vendor_sobjectiz.Coops.Counts.{times, kids, one_if}
use android_vendor_sobjectiz.Coops.Joining.{Registers, register_coop-Registers}
use android_vendor_sobjectiz.Coops.Deregistration.{Starts, first_stage-Starts}
use android_vendor_sobjectiz.Coops.World.{
  World, Action, registers, registration_returns, deregisters, second_stage, make, step, run, start,
  deregisters_all, final_deregisters,
}
use android_vendor_sobjectiz.Coops.World.Steps.{Sound, Goes}
use android_vendor_sobjectiz.Coops.World.Shutdown.{IsDown, run-StaysDown}
use android_vendor_sobjectiz.Coops.World.Safety.{run-Goes, run-chain}

-- A coop, one below it, one below that, and one whose agents cannot be bound.
abbrev family : List Action
family =
    registers 5 none 1 none
    ∷ registration_returns 5
    ∷ registers 2 (some 5) 0 none
    ∷ registration_returns 2
    ∷ registers 7 (some 2) 1 none
    ∷ registers 9 (some 2) 1 (some (exception_t agent_to_disp_binding_failed))
    ∷ []

-- The first coop is deregistered, and the coop without agents and children finishes.
abbrev story : List Action
story =
    registers 5 none 1 none
    ∷ registers 2 (some 5) 0 none
    ∷ registration_returns 2
    ∷ deregisters 5
    ∷ second_stage 0 5
    ∷ second_stage 2 2
    ∷ []

abbrev world_of : Option World → World
world_of none = start
world_of (some w) = w

abbrev reached : List Action → World
reached actions = world_of (run start actions)

family-done : run start family ≡ some (reached family)
unfolding run step register_coop update_registered_coop_map parent_child_relation
    do_registration_specific_actions insert erase insert_relation erase_relation mem
    decrement_usage_count
family-done = refl

story-done : run start story ≡ some (reached story)
unfolding run step register_coop update_registered_coop_map parent_child_relation
    do_registration_specific_actions insert erase insert_relation erase_relation mem
    decrement_usage_count first_stage collect_coops visit children
    modify_registered_and_deregistered_maps do_deregistration_specific_actions
story-done = refl

story-sent : (reached story).core.final_dereg_chain ≡ 2 ∷ []
unfolding run step register_coop update_registered_coop_map parent_child_relation
    do_registration_specific_actions insert erase insert_relation erase_relation mem
    decrement_usage_count first_stage collect_coops visit children
    modify_registered_and_deregistered_maps do_deregistration_specific_actions
story-sent = refl

family-Sound : Sound (reached family)
family-Sound = subst Goes family-done (run-Goes family)

run-Goes_example : Goes (run start story)
run-Goes_example = run-Goes story

run-chain_example :
    times 2 (reached story).core.final_dereg_chain
    ≡ one_if (
        leb 1 (times 2 (reached story).core.deregistered_coop)
        && (kids 2 (reached story).core.parent_child_relations
              + (reached story).agents 2
              + (reached story).guards 2
              + times 2 (reached story).to_shut
            == 0))
run-chain_example = run-chain story (reached story) story-done 2

register_coop-Registers_example :
    Registers 9
      (make (some 7) 1)
      (some 7)
      (some std_exception)
      (reached family).core
      (register_coop 9 (some (make (some 7) 1)) (some std_exception) (reached family).core)
    × (register_coop 9 none (some std_exception) (reached family).core
        ≡ throws zero_ptr_to_coop (reached family).core)
register_coop-Registers_example =
    register_coop-Registers 9 (make (some 7) 1) (reached family).core family-Sound.linked refl
      (some std_exception)

first_stage-Starts_example :
    Starts
      (reached family).core
      family-Sound.linked
      5
      (first_stage (length (reached family).core.registered_coop) 5 (reached family).core)
first_stage-Starts_example = first_stage-Starts 5 (reached family).core family-Sound.linked

-- A shutdown, a registration that comes too late, and a second stage.
abbrev closing : List Action
closing = registers 3 none 1 none ∷ second_stage 0 5 ∷ final_deregisters ∷ []

closing-done :
    run (reached story) (deregisters_all ∷ closing)
    ≡ some (world_of (run (reached story) (deregisters_all ∷ closing)))
unfolding run step register_coop update_registered_coop_map parent_child_relation
    do_registration_specific_actions insert erase insert_relation erase_relation mem
    decrement_usage_count first_stage collect_coops visit children
    modify_registered_and_deregistered_maps do_deregistration_specific_actions deregister_all_coop
    shut_all finaly_remove_cooperation_info final_deregister_coop
closing-done = refl

run-StaysDown_example : IsDown (world_of (run (reached story) (deregisters_all ∷ closing))).core
run-StaysDown_example =
    run-StaysDown (reached story) (world_of (run (reached story) (deregisters_all ∷ closing)))
      closing closing-done
