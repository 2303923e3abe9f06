-- ===== src/Coops/World/Shutdown.antt =====
-- After deregister_all_coop.
use mathlib.Core.Path.{subst}
use android_vendor_sobjectiz.Common.{
  ℕ, ◌+◌, ◌-◌, ◌==◌, leb, dec_size, if◌then◌else◌, Bool, true, false, not, ◌&&◌, Option, none, some,
  List, [], ◌∷◌, ◌++◌, ◌≡◌, refl, ap, ◌∙◌, inl, inr, Bool-cases,
}
use android_vendor_sobjectiz.Coops.Data.{Core, mem, erase, put_coop, is_registered, erase_relation}
use android_vendor_sobjectiz.Coops.Operations.{
  Thrown, exception_t, caught, Outcome, done, throws, register_coop, decrement_usage_count,
  FirstStage, to_dereg, not_found, aborts, runs_on, first_stage, do_deregistration_specific_actions,
  deregister_all_coop, start_deregistration, final_deregister_coop, finaly_remove_cooperation_info,
}
use android_vendor_sobjectiz.Common.{unable_to_register_coop_during_shutdown}
use android_vendor_sobjectiz.Coops.Invariant.{decrement-IsSameBut}
use android_vendor_sobjectiz.Coops.Shutting.{shut-IsSameBut}
use android_vendor_sobjectiz.Coops.World.{
  World, Action, registers, registration_returns, deregisters, second_stage, agent_finishes,
  deregisters_all, shutdown_starts, final_deregisters, step, run, at,
}

-- No coop is registered, and none can be.
pub record IsDown (core : Core) : Type 0 where
  pub started : core.deregistration_started ≡ true
  pub empty : core.registered_coop ≡ []

decrement-started :
    (n : ℕ) (core : Core)
    → (decrement_usage_count n core).deregistration_started ≡ core.deregistration_started
unfolding decrement_usage_count
decrement-started n core =
    elim (Bool-cases (
      (dec_size (core.coops n).reference_count == 0)
      && is_registered (core.coops n).registration_status)) [
        | inl last ↦ rw (last, decrement_usage_count) refl
        | inr more ↦ rw (more, decrement_usage_count) refl
      ]

decrement-IsDown : (n : ℕ) (core : Core) → IsDown core → IsDown (decrement_usage_count n core)
decrement-IsDown n core d = record {
  started = decrement-started n core ∙ d.started;
  empty = (decrement-IsSameBut n core).registered ∙ d.empty;
}

shut-IsDown :
    (reason n : ℕ) (core : Core)
    → IsDown core
    → IsDown (do_deregistration_specific_actions reason n core)
unfolding do_deregistration_specific_actions
shut-IsDown reason n core d = record {
  started =
      decrement-started n (put_coop n (record (core.coops n) { dereg_reason = reason }) core)
      ∙ d.started;
  empty = (shut-IsSameBut reason n core).registered ∙ d.empty;
}

finaly_remove-IsDown :
    (n : ℕ) (core : Core) → IsDown core → IsDown (finaly_remove_cooperation_info n core)
unfolding finaly_remove_cooperation_info
finaly_remove-IsDown n core d =
    by_test (mem n core.deregistered_coop) (core.coops n).parent_coop_ptr
  where
    by_test :
        (b : Bool) (o : Option ℕ)
        → IsDown (
            if not b
            then core
            else (let rest = record core {
              deregistered_coop = erase n core.deregistered_coop;
              total_agent_count = core.total_agent_count - (core.coops n).agent_count;
            } in
                elim o [
                  | none ↦ rest
                  | some p ↦ decrement_usage_count p (record rest {
                    parent_child_relations = erase_relation p n rest.parent_child_relations;
                  })
                ]))
    by_test false o = d
    by_test true none = record { started = d.started; empty = d.empty }
    by_test true (some p) = decrement-IsDown p _ (record { started = d.started; empty = d.empty })

abbrev pub StaysDown : Option World → Type 0
StaysDown none = Unit
StaysDown (some w) = IsDown w.core

module _ (w : World) (d : IsDown w.core) where
  if-StaysDown : (b : Bool) (o : Option World) → StaysDown o → StaysDown (if b then o else some w)
  if-StaysDown true o g = g
  if-StaysDown false o g = d

  registers-StaysDown :
      (n : ℕ) (parent : Option ℕ) (agents : ℕ) (failure : Option Thrown)
      → StaysDown (step w (registers n parent agents failure))
  unfolding step register_coop
  registers-StaysDown n parent agents failure = refused w.core.deregistration_started _ d.started
    where
      refused :
          (b : Bool) (x : Outcome Thrown)
          → b ≡ true
          → StaysDown
              (elim (caught (
                if b
                then throws (exception_t unable_to_register_coop_during_shutdown) w.core
                else x)) [
                  | done r ↦ some (record w {
                    core = r;
                    agents = at n (w.agents n + agents) w.agents;
                    guards = at n (w.guards n + 1) w.guards;
                  })
                  | throws e r ↦ some (record w { core = r })
                ])
      refused true x e = d
      refused false x e = absurd cc

  deregisters-StaysDown : (n : ℕ) → StaysDown (step w (deregisters n))
  unfolding step first_stage mem
  deregisters-StaysDown n =
      by_maps (mem n w.core.deregistered_coop) (mem n w.core.registered_coop) (ap (mem n) d.empty) _
    where
      by_maps :
          (down up : Bool)
          → up ≡ false
          → (x : FirstStage)
          → StaysDown (elim (if down then to_dereg [] w.core else if not up then not_found else x) [
            | to_dereg ns r ↦ some (record w { core = r; to_shut = w.to_shut ++ ns })
            | not_found ↦ some w
            | aborts ↦ none
            | runs_on ↦ none
          ])
      by_maps true up u x = record { started = d.started; empty = d.empty }
      by_maps false false u x = d
      by_maps false true u x = absurd cc

  final-StaysDown :
      (chain : List ℕ)
      → StaysDown (elim chain [
        | [] ↦ some w
        | n ∷ rest ↦ some (record w {
          core = (final_deregister_coop n (record w.core { final_dereg_chain = rest })).core;
        })
      ])
  unfolding final_deregister_coop
  final-StaysDown [] = d
  final-StaysDown (n ∷ rest) =
      finaly_remove-IsDown n (record w.core { final_dereg_chain = rest })
        (record { started = d.started; empty = d.empty })

  step-StaysDown : (a : Action) → StaysDown (step w a)
  unfolding step deregister_all_coop start_deregistration
  step-StaysDown (registers n parent agents failure) = registers-StaysDown n parent agents failure
  step-StaysDown (registration_returns n) =
      if-StaysDown (leb 1 (w.guards n)) _ (decrement-IsDown n w.core d)
  step-StaysDown (deregisters n) = deregisters-StaysDown n
  step-StaysDown (second_stage reason n) =
      if-StaysDown (mem n w.to_shut) _ (shut-IsDown reason n w.core d)
  step-StaysDown (agent_finishes n) =
      if-StaysDown (leb 1 (w.agents n)) _ (decrement-IsDown n w.core d)
  step-StaysDown deregisters_all = record { started = refl; empty = refl }
  step-StaysDown shutdown_starts = record { started = refl; empty = d.empty }
  step-StaysDown final_deregisters = final-StaysDown w.core.final_dereg_chain

run-down : (w : World) (actions : List Action) → IsDown w.core → StaysDown (run w actions)
unfolding run
run-down w [] d = d
run-down w (a ∷ actions) d = next (step w a) (step-StaysDown w d a) (λ w' e. run-down w' actions e)
  where
    next :
        (o : Option World)
        → StaysDown o
        → ((w' : World) → IsDown w'.core → StaysDown (run w' actions))
        → StaysDown (elim o [ none ↦ none | some w' ↦ run w' actions ])
    next none g k = tt
    next (some w') g k = k w' g

-- After deregister_all_coop in any state, whatever is done then, attempts to register included, no coop
-- is registered at the end, and the registry still refuses new ones.
pub run-StaysDown :
    (w w' : World) (actions : List Action)
    → run w (deregisters_all ∷ actions) ≡ some w'
    → IsDown w'.core
unfolding run step deregister_all_coop
run-StaysDown w w' actions e = subst StaysDown e (
    run-down (record w { core = deregister_all_coop w.core }) actions
      (record { started = refl; empty = refl }))
