-- ===== src/Coops/Deregistration.antt =====
-- The first stage of deregister_coop, and deregister_all_coop.
use android_vendor_sobjectiz.Common.{
  ℕ, ◌+◌, ◌-◌, leb, if◌then◌else◌, Bool, true, false, not, List, [], ◌∷◌, length, ◌≡◌, ◌<◌, ◌≤◌,
  refl, arith, inl, inr, ◌⊎◌,
}
use android_vendor_sobjectiz.Coops.Data.{Core, mem, insert, erase}
use android_vendor_sobjectiz.Coops.Operations.{
  Collected, collected, unexpected, goes_on, collect_coops, modify_registered_and_deregistered_maps,
  FirstStage, to_dereg, not_found, aborts, runs_on, first_stage,
}
use android_vendor_sobjectiz.Coops.Counts.{times, pairs, mem-times, times-insert, times-erase}
use android_vendor_sobjectiz.Coops.Invariant.{known, Linked, Counted}
use android_vendor_sobjectiz.Coops.Collecting.{Subtree, Collects, collect_coops-Collects}

-- Tokens that are the same everywhere.
pub Counted-same :
    (core : Core) (tokens tokens' : ℕ → ℕ)
    → ((m : ℕ) → tokens' m ≡ tokens m)
    → Counted core tokens
    → Counted core tokens'
Counted-same core tokens tokens' e v = record {
  usages = λ n h. omega (arith, v.usages n h, e n);
  unknown = λ n h. omega (arith, v.unknown n h, e n);
  queued = v.queued;
  status = v.status;
}

-- The coops `ns` have gone over to the deregistered ones, and nothing else has changed.
pub record Moved (ns : List ℕ) (core core' : Core) : Type 0 where
  pub left : (m : ℕ) → times m core'.registered_coop ≡ times m core.registered_coop - times m ns
  pub came : (m : ℕ) → times m core'.deregistered_coop ≡ times m core.deregistered_coop + times m ns
  pub same_relations : core'.parent_child_relations ≡ core.parent_child_relations
  pub objects : core'.coops ≡ core.coops
  pub chain : core'.final_dereg_chain ≡ core.final_dereg_chain
  pub started : core'.deregistration_started ≡ core.deregistration_started

modify-Moved :
    (ns : List ℕ) (core : Core)
    → ((m : ℕ) → times m ns + times m core.deregistered_coop ≤ 1)
    → Moved ns core (modify_registered_and_deregistered_maps ns core)
unfolding modify_registered_and_deregistered_maps
modify-Moved [] core h = record {
  left = λ m. omega arith;
  came = λ m. omega arith;
  same_relations = refl;
  objects = refl;
  chain = refl;
  started = refl;
}
modify-Moved (n ∷ ns) core h =
    let fresh : times n core.deregistered_coop ≡ 0 = ground (arith, h n) in
    let next : Core = record core {
      deregistered_coop = insert n core.deregistered_coop;
      registered_coop = erase n core.registered_coop;
    } in
    let rest =
      modify-Moved ns next
        (λ m. ground (arith, h m, times-insert m n core.deregistered_coop fresh)) in
    record {
      left = λ m. ground (arith, rest.left m, times-erase m n core.registered_coop);
      came = λ m. ground (arith, rest.came m, times-insert m n core.deregistered_coop fresh);
      same_relations = rest.same_relations;
      objects = rest.objects;
      chain = rest.chain;
      started = rest.started;
    }

module _ (root : ℕ) (core core' : Core) (v : Linked core) (ns : List ℕ) (s : Subtree core v root ns)
    (j : Moved ns core core') where
  known-moved : (m : ℕ) → known core' m ≡ known core m
  known-moved m = ground (arith, j.left m, j.came m, s.once m, s.up m)

  pub moved-Linked : Linked core'
  moved-Linked = record {
    age = v.age;
    unique = λ m. omega (arith, known-moved m, v.unique m);
    relations = λ p c. rw (j.same_relations, j.objects, known-moved c) (v.relations p c);
    parents = λ p c h. omega (arith, known-moved p, v.parents p c (rw j.same_relations at h));
    above = λ p c h k.
        let h' : 0 < pairs p c core.parent_child_relations = rw j.same_relations at h in
        ground (arith, j.left p, j.left c, v.above p c h', s.closed p c, v.unique c, h', k);
    older = λ p c h. v.older p c (rw j.same_relations at h);
  }

  pub moved-Counted : (tokens : ℕ → ℕ) → Counted core tokens → Counted core' tokens
  moved-Counted tokens u = record {
    usages = λ m h. rw (j.same_relations, j.objects) (u.usages m (omega (arith, known-moved m, h)));
    unknown = λ m h. u.unknown m (omega (arith, known-moved m, h));
    queued = λ m. rw (j.chain, j.objects, known-moved m) (u.queued m);
    status = λ m h. rw j.objects (u.status m (omega (arith, known-moved m, h)));
  }

-- What the first stage comes to.
abbrev pub Starts : (core : Core) → Linked core → ℕ → FirstStage → Type 0
Starts core v root (to_dereg ns core') =
    ((0 < times root core.deregistered_coop) × (ns ≡ []) × (core' ≡ core))
    ⊎ ((0 < times root core.registered_coop) × Subtree core v root ns × Moved ns core core')
Starts core v root not_found = known core root ≡ 0
Starts core v root aborts = ⊥
Starts core v root runs_on = ⊥

module _ (root : ℕ) (core : Core) (v : Linked core) where
  abbrev second : Collected → FirstStage
  second (collected ns) = to_dereg ns (modify_registered_and_deregistered_maps ns core)
  second unexpected = aborts
  second goes_on = runs_on

  second-Starts :
      (r : Collected)
      → Collects core v root r
      → 0 < times root core.registered_coop
      → Starts core v root (second r)
  second-Starts (collected ns) s h =
      inr (h, s, modify-Moved ns core (λ m. ground (arith, s.once m, s.up m, v.unique m)))
  second-Starts unexpected s h = s
  second-Starts goes_on s h = s

  -- On a sound registry the first stage of deregister_coop never aborts and never runs on: it throws
  -- exactly for a name that is in neither map, does nothing for a coop that is being deregistered, and
  -- else moves the coop and registered coops below it, each once and with all registered children of
  -- each, over to the deregistered coops.
  pub first_stage-Starts : Starts core v root (first_stage (length core.registered_coop) root core)
  unfolding first_stage
  first_stage-Starts =
      by_maps (mem root core.deregistered_coop) (mem root core.registered_coop)
        (mem-times root core.deregistered_coop) (mem-times root core.registered_coop)
    where
      by_maps :
          (down up : Bool)
          → down ≡ leb 1 (times root core.deregistered_coop)
          → up ≡ leb 1 (times root core.registered_coop)
          → Starts core v root (
              if down
              then to_dereg [] core
              else if not up
              then not_found
              else second (collect_coops (length core.registered_coop) core [] (root ∷ [])))
      by_maps true up d u = inl (ground arith, refl, refl)
      by_maps false false d u = ground arith
      by_maps false true d u =
          let h : 0 < times root core.registered_coop = ground arith in
          second-Starts (collect_coops (length core.registered_coop) core [] (root ∷ []))
            (collect_coops-Collects core v root h) h
