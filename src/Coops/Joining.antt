-- ===== src/Coops/Joining.antt =====
-- register_coop on every branch.
use android_vendor_sobjectiz.Common.{
  ℕ, leb, if◌then◌else◌, Bool, true, false, ◌||◌, Option, none, some, List, [], ◌∷◌, ◌≡◌, ◌<◌, refl,
  ap, arith, inl, inr, ◌⊎◌, RetCode, coop_with_specified_name_is_already_registered,
  parent_coop_not_found, unable_to_register_coop_during_shutdown, zero_ptr_to_coop,
}
use android_vendor_sobjectiz.Coops.Data.{
  Core, Coop, Relation, mem, insert, erase, insert_relation, erase_relation,
}
use android_vendor_sobjectiz.Coops.Operations.{
  Thrown, exception_t, rethrown, caught, Outcome, done, throws, parent_child_relation,
  update_registered_coop_map, register_coop,
}
use android_vendor_sobjectiz.Coops.Counts.{times, pairs, mem-times}
use android_vendor_sobjectiz.Coops.Invariant.{known, points_to, Linked}
use android_vendor_sobjectiz.Coops.Unchanged.{IsUnchanged, IsUnchanged-refl}
use android_vendor_sobjectiz.Coops.Registration.{Joined, guarded, joins-none, joins-some}

erase-insert : (n : ℕ) (xs : List ℕ) → times n xs ≡ 0 → erase n (insert n xs) ≡ xs
unfolding erase insert
erase-insert n [] h = ground arith
erase-insert n (x ∷ xs) h = ground (arith, erase-insert n xs)

erase_relation-insert_relation :
    (p c : ℕ) (rs : List Relation)
    → pairs p c rs ≡ 0
    → erase_relation p c (insert_relation p c rs) ≡ rs
unfolding erase_relation insert_relation
erase_relation-insert_relation p c [] h = ground arith
erase_relation-insert_relation p c (r ∷ rs) h =
    ground (arith, erase_relation-insert_relation p c rs)

-- Why a registration fails.
abbrev pub Reason : ℕ → Option ℕ → Option Thrown → Core → RetCode → Type 0
Reason n parent failure core e =
    ((core.deregistration_started ≡ true) × (e ≡ unable_to_register_coop_during_shutdown))
    ⊎ ((0 < known core n) × (e ≡ coop_with_specified_name_is_already_registered))
    ⊎ ((e ≡ parent_coop_not_found)
        × (p : ℕ) × (parent ≡ some p)
        × (times p core.registered_coop ≡ 0))
    ⊎ ((x : Thrown) × (failure ≡ some x) × (e ≡ rethrown x))

-- `parent` is the name of the parent in the new coop.
abbrev pub Registers : ℕ → Coop → Option ℕ → Option Thrown → Core → Outcome RetCode → Type 0
Registers n coop parent failure core (throws e r) =
    Reason n parent failure core e × IsUnchanged core r
Registers n coop parent failure core (done r) =
    (core.deregistration_started ≡ false)
    × (known core n ≡ 0)
    × (failure ≡ none)
    × ((p : ℕ) → points_to p parent ≡ true → 0 < times p core.registered_coop)
    × Joined n coop.agent_count parent core r

module _ (n : ℕ) (coop : Coop) (core : Core) (v : Linked core) (z : coop.reference_count ≡ 0) where
  update-Registers :
      (parent : Option ℕ) (failure : Option Thrown)
      → core.deregistration_started ≡ false
      → known core n ≡ 0
      → ((p : ℕ) → points_to p parent ≡ true → 0 < times p core.registered_coop)
      → Registers n coop parent failure core
          (caught (update_registered_coop_map n (guarded n coop core) parent failure core))
  unfolding update_registered_coop_map parent_child_relation
  update-Registers none none st new good =
      (st, new, refl, good, joins-none n coop core z (omega (arith, new)))
  update-Registers none (some x) st new good = (
    inr (inr (inr (x, refl, refl))),
    record {
      registered = erase-insert n core.registered_coop (omega (arith, new));
      deregistered = refl;
      same_relations = refl;
      started = refl;
      total = omega arith;
      chain = refl;
      objects = λ m h. ground (arith, new);
    },
  )
  update-Registers (some p) none st new good =
      let up = good p (ground arith) in
      (
        st,
        new,
        refl,
        good,
        joins-some n coop core z (omega (arith, new)) p
            (λ e. omega (arith, new, up, ap (λ x. times x core.registered_coop) e))
            (ground (arith, v.relations p n, new)),
      )
  update-Registers (some p) (some x) st new good = (
    inr (inr (inr (x, refl, refl))),
    record {
      registered = erase-insert n core.registered_coop (omega (arith, new));
      deregistered = refl;
      same_relations =
          erase_relation-insert_relation p n core.parent_child_relations
            (ground (arith, v.relations p n, new));
      started = refl;
      total = omega arith;
      chain = refl;
      objects = λ m h. ground (arith, new);
    },
  )

  taken : (mem n core.registered_coop || mem n core.deregistered_coop) ≡ leb 1 (known core n)
  taken = ground (arith, mem-times n core.registered_coop, mem-times n core.deregistered_coop)

  under-Registers :
      (failure : Option Thrown) (p : ℕ) (b : Bool)
      → core.deregistration_started ≡ false
      → known core n ≡ 0
      → mem p core.registered_coop ≡ b
      → Registers n coop (some p) failure core (
          caught (
            if b
            then update_registered_coop_map n (guarded n coop core) (some p) failure core
            else throws (exception_t parent_coop_not_found) core))
  under-Registers failure p true st new up =
      update-Registers (some p) failure st new
        (λ q e. ground (arith, up, mem-times p core.registered_coop))
  under-Registers failure p false st new up = (
    inr (inr (inl (refl, p, refl, ground (arith, up, mem-times p core.registered_coop)))),
    IsUnchanged-refl core,
  )

  by_tests :
      (failure : Option Thrown) (st old : Bool) (o : Option ℕ)
      → core.deregistration_started ≡ st
      → (mem n core.registered_coop || mem n core.deregistered_coop) ≡ old
      → Registers n coop o failure core (
          caught (
            if st
            then throws (exception_t unable_to_register_coop_during_shutdown) core
            else if old
            then throws (exception_t coop_with_specified_name_is_already_registered) core
            else elim o [
              | none ↦ update_registered_coop_map n (guarded n coop core) none failure core
              | some p ↦
                  if mem p core.registered_coop
                  then update_registered_coop_map n (guarded n coop core) (some p) failure core
                  else throws (exception_t parent_coop_not_found) core
            ]))
  by_tests failure true old o st e = (inl (st, refl), IsUnchanged-refl core)
  by_tests failure false true o st e =
      (inr (inl (ground (arith, taken, e), refl)), IsUnchanged-refl core)
  by_tests failure false false none st e =
      update-Registers none failure st (ground (arith, taken, e)) (λ q x. absurd cc)
  by_tests failure false false (some p) st e =
      under-Registers failure p (mem p core.registered_coop) st (ground (arith, taken, e)) refl

  -- Whatever exception the actions on registration throw, an exception_t or another std::exception:
  -- register_coop of a new object either throws, with the code of a shutdown, of a name in use, of an
  -- unknown parent, of the exception_t thrown, or for another exception coop_define_agent_failed, and
  -- leaves all maps, relations, counters and known coops as they were; or no exception came, it is
  -- not during a shutdown, the name was free and the parent registered, and the coop is registered,
  -- related to its parent, with a usage for each agent, for its guard and for being registered, and
  -- one usage more of the parent. A null pointer is refused with nothing changed.
  pub register_coop-Registers :
      (failure : Option Thrown)
      → Registers n coop coop.parent_coop_name failure core
          (register_coop n (some coop) failure core)
        × (register_coop n none failure core ≡ throws zero_ptr_to_coop core)
  unfolding register_coop
  register_coop-Registers failure = (
    by_tests failure core.deregistration_started
        (mem n core.registered_coop || mem n core.deregistered_coop) coop.parent_coop_name refl
        refl,
    refl,
  )
