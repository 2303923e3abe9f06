-- ===== src/Coops/Unchanged.antt =====
-- Registries that are the same to all but those who look at unused names.
use android_vendor_sobjectiz.Common.{ℕ, ◌≡◌, ◌<◌, refl, arith}
use android_vendor_sobjectiz.Coops.Data.{Core}
use android_vendor_sobjectiz.Coops.Operations.{}
use android_vendor_sobjectiz.Coops.Invariant.{known, Linked, Counted}

-- All but the object under a name that is in neither map.
pub record IsUnchanged (core core' : Core) : Type 0 where
  pub registered : core'.registered_coop ≡ core.registered_coop
  pub deregistered : core'.deregistered_coop ≡ core.deregistered_coop
  pub same_relations : core'.parent_child_relations ≡ core.parent_child_relations
  pub started : core'.deregistration_started ≡ core.deregistration_started
  pub total : core'.total_agent_count ≡ core.total_agent_count
  pub chain : core'.final_dereg_chain ≡ core.final_dereg_chain
  pub objects : (n : ℕ) → 0 < known core n → core'.coops n ≡ core.coops n

pub IsUnchanged-refl : (core : Core) → IsUnchanged core core
IsUnchanged-refl core = record {
  registered = refl;
  deregistered = refl;
  same_relations = refl;
  started = refl;
  total = refl;
  chain = refl;
  objects = λ n h. refl;
}

pub unchanged-Linked : (core core' : Core) → IsUnchanged core core' → Linked core → Linked core'
unchanged-Linked core core' s v = record {
  age = v.age;
  unique = λ n. rw (s.registered, s.deregistered) (v.unique n);
  relations = λ p c.
      rw (s.registered, s.deregistered, s.same_relations)
        (ground (arith, v.relations p c, s.objects c));
  parents = rw (s.registered, s.deregistered, s.same_relations) v.parents;
  above = rw (s.registered, s.same_relations) v.above;
  older = rw s.same_relations v.older;
}

pub unchanged-Counted :
    (core core' : Core) (t : ℕ → ℕ) → IsUnchanged core core' → Counted core t → Counted core' t
unchanged-Counted core core' t s v =
    let same : (m : ℕ) → known core' m ≡ known core m =
      λ m. rw (s.registered, s.deregistered) refl in
    record {
      usages = λ m h. rw s.same_relations (ground (arith, same m, s.objects m, v.usages m));
      unknown = λ m h. v.unknown m (omega (arith, same m, h));
      queued = λ m. rw s.chain (ground (arith, same m, s.objects m, v.queued m));
      status = λ m h. ground (arith, same m, s.objects m, v.status m);
    }
