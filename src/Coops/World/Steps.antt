-- ===== src/Coops/World/Steps.antt =====
-- Every action keeps the registry sound.
use android_vendor_sobjectiz.Common.{
  ℕ, ◌+◌, ◌-◌, ◌==◌, leb, Option, none, some, List, [], ◌∷◌, ◌++◌, RetCode, ◌≡◌, ◌<◌, ◌≤◌, refl,
  arith, inl, inr, Bool-cases,
}
use android_vendor_sobjectiz.Coops.Data.{mem}
use android_vendor_sobjectiz.Coops.Operations.{
  Thrown, Outcome, done, throws, decrement_usage_count, FirstStage, to_dereg, not_found, aborts,
  runs_on, do_deregistration_specific_actions, deregister_all_coop, start_deregistration,
  final_deregister_coop,
}
use android_vendor_sobjectiz.Coops.Counts.{times, one_if, mem-times, times-append, times-erase}
use android_vendor_sobjectiz.Coops.Invariant.{
  known, Linked, Counted, IsSameBut-Linked, without_one, decrement-IsSameBut, decrement-Counted,
}
use android_vendor_sobjectiz.Coops.Registration.{with_new, joined-Linked, joined-Counted}
use android_vendor_sobjectiz.Coops.Joining.{Registers, register_coop-Registers}
use android_vendor_sobjectiz.Coops.Deregistration.{
  Counted-same, Starts, first_stage-Starts, moved-Linked, moved-Counted,
}
use android_vendor_sobjectiz.Coops.Shutting.{
  shut-IsSameBut, shut-Counted, deregister_all-Linked, deregister_all-Counted, deregister_all-down,
  without_all,
}
use android_vendor_sobjectiz.Coops.Finishing.{
  chain-IsOver, removed-Linked, removed-Counted, removed-maps,
}
use android_vendor_sobjectiz.Coops.Unchanged.{unchanged-Linked, unchanged-Counted}
use android_vendor_sobjectiz.Coops.World.{
  World, Action, registers, registration_returns, deregisters, second_stage, agent_finishes,
  deregisters_all, shutdown_starts, final_deregisters, make, at, step, tokens,
}

pub record Sound (w : World) : Type 0 where
  pub linked : Linked w.core
  pub counted : Counted w.core (tokens w)
  pub pending : (n : ℕ) → times n w.to_shut ≤ times n w.core.deregistered_coop

abbrev pub Goes : Option World → Type 0
Goes none = ⊥
Goes (some w) = Sound w

module _ (w : World) (v : Sound w) where
  own : (m : ℕ) → times m w.core.registered_coop ≤ tokens w m
  own m = omega arith

  known_by : (n : ℕ) → 0 < tokens w n → 0 < known w.core n
  known_by n h = ground (arith, v.counted.unknown n, h)

  -- A usage that an agent or a call of register_coop gives back.
  gives_back :
      (n : ℕ) (agents guards : ℕ → ℕ)
      → ((m : ℕ) → agents m + guards m ≡ w.agents m + w.guards m - one_if (m == n))
      → 0 < w.agents n + w.guards n
      → Sound (record w { core = decrement_usage_count n w.core; agents = agents; guards = guards })
  gives_back n agents guards less has =
      let s = decrement-IsSameBut n w.core in
      let h : 0 < tokens w n = omega (arith, has) in
      record {
        linked = IsSameBut-Linked w.core (decrement_usage_count n w.core) s v.linked;
        counted =
            Counted-same (decrement_usage_count n w.core) (without_one n (tokens w)) _
              (λ m. rw s.registered (ground (arith, less m, has)))
              (decrement-Counted n w.core (tokens w) v.counted (known_by n h) h);
        pending = λ m. rw s.deregistered (v.pending m);
      }

  returns-Goes : (n : ℕ) → Goes (step w (registration_returns n))
  unfolding step
  returns-Goes n = elim (Bool-cases (leb 1 (w.guards n))) [
    | inr off ↦ rw (off, step) v
    | inl has_one ↦
        rw (has_one, step)
          (gives_back n w.agents (at n (w.guards n - 1) w.guards) (λ m. ground arith)
            (ground arith))
  ]

  finishes-Goes : (n : ℕ) → Goes (step w (agent_finishes n))
  unfolding step
  finishes-Goes n = elim (Bool-cases (leb 1 (w.agents n))) [
    | inr off ↦ rw (off, step) v
    | inl has_one ↦
        rw (has_one, step)
          (gives_back n (at n (w.agents n - 1) w.agents) w.guards (λ m. ground arith)
            (ground arith))
  ]

  second-Goes : (reason n : ℕ) → Goes (step w (second_stage reason n))
  unfolding step
  second-Goes reason n = elim (Bool-cases (mem n w.to_shut)) [
    | inr off ↦ rw (off, step) v
    | inl has_one ↦
        let has : 0 < times n w.to_shut = ground (arith, mem-times n w.to_shut) in
        let h : 0 < tokens w n = omega (arith, has) in
        let s = shut-IsSameBut reason n w.core in
        let r = do_deregistration_specific_actions reason n w.core in
        rw (has_one, step)
          (record {
            linked = IsSameBut-Linked w.core r s v.linked;
            counted =
                Counted-same r (without_one n (tokens w)) _
                  (λ m. rw s.registered (ground (arith, times-erase m n w.to_shut, has)))
                  (shut-Counted reason n w.core (tokens w) v.counted (known_by n h) h);
            pending =
                λ m. rw s.deregistered (omega (arith, v.pending m, times-erase m n w.to_shut));
          })
  ]

  registered-Goes :
      (n : ℕ) (parent : Option ℕ) (agents : ℕ) (failure : Option Thrown) (r : Outcome RetCode)
      → Registers n (make parent agents) parent failure w.core r
      → Goes (elim r [
        | done c ↦ some (record w {
          core = c;
          agents = at n (w.agents n + agents) w.agents;
          guards = at n (w.guards n + 1) w.guards;
        })
        | throws e c ↦ some (record w { core = c })
      ])
  registered-Goes n parent agents failure (throws e c) (why, s) = record {
    linked = unchanged-Linked w.core c s v.linked;
    counted =
        Counted-same c (tokens w) _ (λ m. rw s.registered refl)
          (unchanged-Counted w.core c (tokens w) s v.counted);
    pending = λ m. rw s.deregistered (v.pending m);
  }
  registered-Goes n parent agents failure (done c) (st, new, ok, good, j) = record {
    linked = joined-Linked n agents parent w.core c (tokens w) j v.linked new good;
    counted =
        Counted-same c (with_new n agents (tokens w)) _
          (λ m. ground (arith, j.maps m, v.counted.unknown n, new))
          (joined-Counted n agents parent w.core c (tokens w) j v.linked new good v.counted own);
    pending = λ m. rw j.others (v.pending m);
  }

  started-Goes :
      (n : ℕ) (r : FirstStage)
      → Starts w.core v.linked n r
      → Goes (elim r [
        | to_dereg ns c ↦ some (record w { core = c; to_shut = w.to_shut ++ ns })
        | not_found ↦ some w
        | aborts ↦ none
        | runs_on ↦ none
      ])
  started-Goes n (to_dereg ns c) (inl (h, none_, same)) = record {
    linked = rw same v.linked;
    counted = rw same (
        Counted-same w.core (tokens w) _
          (λ m. rw none_ (ground (arith, times-append m w.to_shut []))) v.counted);
    pending = λ m. rw (same, none_) (omega (arith, v.pending m, times-append m w.to_shut []));
  }
  started-Goes n (to_dereg ns c) (inr (h, s, j)) = record {
    linked = moved-Linked n w.core c v.linked ns s j;
    counted =
        Counted-same c (tokens w) _
          (λ m. ground (arith, j.left m, times-append m w.to_shut ns, s.once m, s.up m))
          (moved-Counted n w.core c v.linked ns s j (tokens w) v.counted);
    pending = λ m. omega (arith, v.pending m, j.came m, times-append m w.to_shut ns);
  }
  started-Goes n not_found e = v
  started-Goes n aborts e = e
  started-Goes n runs_on e = e

  all-Goes : Goes (step w deregisters_all)
  unfolding step
  all-Goes =
      let c = deregister_all-Counted w.core v.linked (tokens w) v.counted own in
      record {
        linked = deregister_all-Linked w.core v.linked (tokens w);
        counted =
            Counted-same (deregister_all_coop w.core)
              (without_all w.core.registered_coop (tokens w)) _ (λ m. none_up m) c;
        pending = λ m. omega (arith, v.pending m, deregister_all-down w.core v.linked (tokens w) m);
      }
    where
      none_up :
          (m : ℕ)
          → tokens (record w { core = deregister_all_coop w.core }) m
            ≡ tokens w m - times m w.core.registered_coop
      none_up m = unfold deregister_all_coop in omega arith

  final-Goes :
      (chain : List ℕ)
      → w.core.final_dereg_chain ≡ chain
      → Goes (elim chain [
        | [] ↦ some w
        | n ∷ rest ↦ some (record w {
          core = (final_deregister_coop n (record w.core { final_dereg_chain = rest })).core;
        })
      ])
  unfolding final_deregister_coop
  final-Goes [] e = v
  final-Goes (n ∷ rest) e =
      let over = chain-IsOver n rest w.core (tokens w) v.linked v.counted own e in
      let maps = removed-maps n rest w.core (tokens w) v.linked v.counted own e in
      record {
        linked = removed-Linked n rest w.core (tokens w) v.linked v.counted own e;
        counted =
            Counted-same _ (tokens w) _ (λ m. rw maps.0 refl)
              (removed-Counted n rest w.core (tokens w) v.linked v.counted own e);
        pending = λ m.
            rw maps.1
              (ground (arith, v.pending m, times-erase m n w.core.deregistered_coop, over.unused));
      }

  pub step-Sound : (a : Action) → Goes (step w a)
  unfolding step start_deregistration
  step-Sound (registers n parent agents failure) =
      registered-Goes n parent agents failure _
        (register_coop-Registers n (make parent agents) w.core v.linked refl failure).0
  step-Sound (registration_returns n) = returns-Goes n
  step-Sound (deregisters n) = started-Goes n _ (first_stage-Starts n w.core v.linked)
  step-Sound (second_stage reason n) = second-Goes reason n
  step-Sound (agent_finishes n) = finishes-Goes n
  step-Sound deregisters_all = all-Goes
  step-Sound shutdown_starts = record {
    linked =
        IsSameBut-Linked w.core _
          (record {
            registered = refl;
            deregistered = refl;
            same_relations = refl;
            pointers = λ m. refl;
          })
          v.linked;
    counted = record {
      usages = v.counted.usages;
      unknown = v.counted.unknown;
      queued = v.counted.queued;
      status = v.counted.status;
    };
    pending = v.pending;
  }
  step-Sound final_deregisters = final-Goes w.core.final_dereg_chain refl
