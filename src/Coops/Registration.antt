-- ===== src/Coops/Registration.antt =====
-- register_coop: what it does on every branch, and that it keeps the invariant.
use android_vendor_sobjectiz.Common.{
  ℕ, suc, ◌+◌, ◌==◌, if◌then◌else◌, true, false, ◌&&◌, Option, none, some, ◌≡◌, ◌≢◌, ◌<◌, ◌≤◌, refl,
  ap, arith, inl, inr, Bool-cases,
}
use android_vendor_sobjectiz.Coops.Data.{
  Core, Coop, coop_registered, put_coop, insert, insert_relation,
}
use android_vendor_sobjectiz.Coops.Operations.{do_registration_specific_actions}
use android_vendor_sobjectiz.Coops.Counts.{
  times, pairs, kids, one_if, times-insert, pairs-insert_relation, kids-insert_relation,
  no_pairs-kids,
}
use android_vendor_sobjectiz.Coops.Invariant.{known, points_to, Linked, Counted}

-- The registry after a coop `n` with `agents` agents has joined it under `parent`.
pub record Joined (n agents : ℕ) (parent : Option ℕ) (core core' : Core) : Type 0 where
  pub maps :
      (m : ℕ) → times m core'.registered_coop ≡ times m core.registered_coop + one_if (m == n)
  pub others : core'.deregistered_coop ≡ core.deregistered_coop
  pub chain : core'.final_dereg_chain ≡ core.final_dereg_chain
  pub links :
      (p c : ℕ)
      → pairs p c core'.parent_child_relations
        ≡ pairs p c core.parent_child_relations + one_if (points_to p parent && (c == n))
  pub offspring :
      (p : ℕ)
      → kids p core'.parent_child_relations
        ≡ kids p core.parent_child_relations + one_if (points_to p parent)
  pub counts :
      (m : ℕ)
      → (core'.coops m).reference_count ≡ (
          if m == n
          then agents + 2
          else (core.coops m).reference_count + one_if (points_to m parent))
  pub pointers :
      (m : ℕ)
      → (core'.coops m).parent_coop_ptr
        ≡ (if m == n then parent else (core.coops m).parent_coop_ptr)
  pub statuses :
      (m : ℕ)
      → (core'.coops m).registration_status
        ≡ (if m == n then coop_registered else (core.coops m).registration_status)

module _ (n : ℕ) (coop : Coop) (core : Core) where
  abbrev pub guarded : Coop
  guarded = record coop { reference_count = coop.reference_count + 1 }

  abbrev pub added : Core
  added = record (put_coop n guarded core) {
    registered_coop = insert n core.registered_coop;
    total_agent_count = core.total_agent_count + coop.agent_count;
  }

  -- The registry after the whole of update_registered_coop_map.
  abbrev pub joins : Option ℕ → Core
  joins none = do_registration_specific_actions n none added
  joins (some p) =
      do_registration_specific_actions n (some p)
        (record added { parent_child_relations = insert_relation p n core.parent_child_relations })

  module _ (z : coop.reference_count ≡ 0) (fresh : times n core.registered_coop ≡ 0) where
    pub joins-none : Joined n coop.agent_count none core (joins none)
    unfolding do_registration_specific_actions
    joins-none = record {
      maps = λ m. times-insert m n core.registered_coop fresh;
      others = refl;
      chain = refl;
      links = λ p c. omega arith;
      offspring = λ p. omega arith;
      counts = λ m. ground (arith, z);
      pointers = λ m. ground arith;
      statuses = λ m. ground arith;
    }

    pub joins-some :
        (p : ℕ)
        → p ≢ n
        → pairs p n core.parent_child_relations ≡ 0
        → Joined n coop.agent_count (some p) core (joins (some p))
    unfolding do_registration_specific_actions
    joins-some p ne free = record {
      maps = λ m. times-insert m n core.registered_coop fresh;
      others = refl;
      chain = refl;
      links = λ q c. ground (arith, pairs-insert_relation q c p n core.parent_child_relations free);
      offspring = λ q. ground (arith, kids-insert_relation q p n core.parent_child_relations free);
      counts = λ m. ground (arith, z, ne);
      pointers = λ m. ground (arith, ne);
      statuses = λ m. ground (arith, ne);
    }

-- The tokens that a registration hands out: of its guard, of the registered coop and of its agents.
abbrev pub with_new : ℕ → ℕ → (ℕ → ℕ) → ℕ → ℕ
with_new n agents tokens m = if m == n then agents + 2 else tokens m

module _ (n agents : ℕ) (parent : Option ℕ) (core core' : Core) (tokens : ℕ → ℕ)
    (j : Joined n agents parent core core') (v : Linked core) (new : known core n ≡ 0)
    (good : (p : ℕ) → points_to p parent ≡ true → 0 < times p core.registered_coop) where
  known-joined : (m : ℕ) → known core' m ≡ known core m + one_if (m == n)
  known-joined m = rw j.others (omega (arith, j.maps m))

  no_child : (c : ℕ) → pairs n c core.parent_child_relations ≡ 0
  no_child c = ground (arith, v.parents n c, new)

  no_parent : (p : ℕ) → pairs p n core.parent_child_relations ≡ 0
  no_parent p = ground (arith, v.relations p n, new)

  abbrev new_age : ℕ → ℕ
  new_age m = if m == n then suc (elim parent [ none ↦ 0 | some p ↦ v.age p ]) else v.age m

  not_itself : points_to n parent ≡ false
  not_itself = elim (Bool-cases (points_to n parent)) [
    | inl e ↦ absurd (omega (arith, good n e, new))
    | inr e ↦ e
  ]

  ages : (p c : ℕ) → 0 < pairs p c core'.parent_child_relations → new_age p < new_age c
  ages p c h = elim (Bool-cases (p == n)) [
    | inl itself ↦
        let e : p ≡ n = ground arith in
        absurd (
          omega (
            arith,
            rw e at h,
            j.links n c,
            no_child c,
            ap (λ b. one_if (b && (c == n))) not_itself,
          ))
    | inr other ↦ elim (Bool-cases (c == n)) [
      | inr old ↦ ground (arith, other, old, j.links p c, v.older p c)
      | inl fresh ↦
          let e : c ≡ n = ground arith in
          let to : points_to p parent ≡ true =
            ground (arith, rw e at h, j.links p n, no_parent p) in
          rw (other, fresh) (youngest parent to)
    ]
  ]
    where
      youngest :
          (o : Option ℕ)
          → points_to p o ≡ true
          → v.age p < suc (elim o [ none ↦ 0 | some q ↦ v.age q ])
      youngest none e = absurd cc
      youngest (some q) e = let same : q ≡ p = ground arith in rw same (omega arith)

  pub joined-Linked : Linked core'
  joined-Linked = record {
    age = new_age;
    unique = λ m. ground (arith, known-joined m, v.unique m, new);
    relations = λ p c.
        ground
          (arith, j.links p c, known-joined c, j.pointers c, v.relations p c, new, no_parent p);
    parents = λ p c h. ground (arith, j.links p c, known-joined p, v.parents p c, good p);
    above = λ p c h k.
        ground (arith, j.links p c, j.maps c, j.maps p, v.above p c, good p, no_parent p);
    older = ages;
  }

  pub joined-Counted :
      Counted core tokens
      → ((m : ℕ) → times m core.registered_coop ≤ tokens m)
      → Counted core' (with_new n agents tokens)
  joined-Counted u own =
      let none_yet = no_pairs-kids n core.parent_child_relations no_child in
      record {
        usages = λ m h.
            ground
              (arith, known-joined m, j.counts m, j.offspring m, u.usages m, none_yet, not_itself);
        unknown = λ m h. ground (arith, known-joined m, u.unknown m);
        queued = λ m. rw j.chain (
            ground (arith, known-joined m, j.counts m, u.queued m, u.usages m, new, own m, good m));
        status = λ m h. ground (
          arith,
          known-joined m,
          j.counts m,
          j.statuses m,
          u.status m,
          u.usages m,
          own m,
          good m,
        );
      }
