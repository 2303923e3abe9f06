-- ===== src/Coops/World/Safety.antt =====
-- Every interleaving keeps the registry sound.
use mathlib.Core.Path.{subst}
use android_vendor_sobjectiz.Common.{
  ℕ, ◌+◌, ◌==◌, leb, ◌&&◌, Option, none, some, List, [], ◌∷◌, ◌≡◌, arith,
}
use android_vendor_sobjectiz.Coops.Counts.{times, kids, one_if}
use android_vendor_sobjectiz.Coops.Invariant.{}
use android_vendor_sobjectiz.Coops.Deregistration.{}
use android_vendor_sobjectiz.Coops.Shutting.{}
use android_vendor_sobjectiz.Coops.Finishing.{}
use android_vendor_sobjectiz.Coops.World.{World, Action, step, run, start}
use android_vendor_sobjectiz.Coops.World.Steps.{Sound, Goes, step-Sound}

run-from :
    (o : Option World) (actions : List Action)
    → Goes o
    → ((w : World) → Sound w → Goes (run w actions))
    → Goes (elim o [ none ↦ none | some w ↦ run w actions ])
run-from none actions g next = g
run-from (some w) actions g next = next w g

pub run-Sound : (w : World) (actions : List Action) → Sound w → Goes (run w actions)
unfolding run
run-Sound w [] v = v
run-Sound w (a ∷ actions) v =
    run-from (step w a) actions (step-Sound w v a) (λ w' s. run-Sound w' actions s)

pub start-Sound : Sound start
start-Sound = record {
  linked = record {
    age = λ n. 0;
    unique = λ n. omega arith;
    relations = λ p c. ground arith;
    parents = λ p c h. absurd (omega arith);
    above = λ p c h k. absurd (omega arith);
    older = λ p c h. absurd (omega arith);
  };
  counted = record {
    usages = λ n h. absurd (omega arith);
    unknown = λ n h. omega arith;
    queued = λ n. ground arith;
    status = λ n h. absurd (omega arith);
  };
  pending = λ n. omega arith;
}

-- From the start, whatever is done and in whatever order, no deregistration aborts or runs on, and the
-- registry stays sound: a name is in at most one of the maps, the relations are the parents of the
-- known coops, a registered coop has a registered parent, the usage count of a coop is the number of
-- its children, of its agents that have not finished, of its calls of register_coop, and one until its
-- deregistration, and it is sent to the final deregistration exactly once, when the count falls to 0.
pub run-Goes : (actions : List Action) → Goes (run start actions)
run-Goes actions = run-Sound start actions start-Sound

-- Whatever is done from the start, a coop is in the chain to the final deregistration exactly once if
-- it has been deregistered, its second stage is over, all its agents have finished, no register_coop
-- for it runs and it has no children, and else not at all.
pub run-chain :
    (actions : List Action) (w : World)
    → run start actions ≡ some w
    → (n : ℕ)
    → times n w.core.final_dereg_chain
      ≡ one_if (
          leb 1 (times n w.core.deregistered_coop)
          && (kids n w.core.parent_child_relations + w.agents n + w.guards n + times n w.to_shut
              == 0))
run-chain actions w e n =
    let v : Sound w = subst Goes e (run-Goes actions) in
    ground (arith, v.counted.queued n, v.counted.usages n, v.linked.unique n)
