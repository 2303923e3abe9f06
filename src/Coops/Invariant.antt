-- ===== src/Coops/Invariant.antt =====
-- What holds of the registry between any two steps, and how one usage less keeps it.
use android_vendor_sobjectiz.Common.{
  ℕ, ◌+◌, ◌-◌, ◌==◌, leb, dec_size, if◌then◌else◌, Bool, true, false, ◌&&◌, Option, none, some, [],
  ◌∷◌, ◌≡◌, ◌<◌, ◌≤◌, refl, arith, inl, inr, Bool-cases,
}
use android_vendor_sobjectiz.Coops.Data.{Core, coop_registered, coop_deregistering, is_registered}
use android_vendor_sobjectiz.Coops.Operations.{decrement_usage_count}
use android_vendor_sobjectiz.Coops.Counts.{times, pairs, kids, one_if, times-append}

-- In how many maps a name is.
abbrev pub known : Core → ℕ → ℕ
known core n = times n core.registered_coop + times n core.deregistered_coop

abbrev pub points_to : ℕ → Option ℕ → Bool
points_to p none = false
points_to p (some q) = q == p

-- The maps and the relations. A parent is older than its children.
pub record Linked (core : Core) : Type 0 where
  pub age : ℕ → ℕ
  pub unique : (n : ℕ) → known core n ≤ 1
  pub relations :
      (p c : ℕ)
      → pairs p c core.parent_child_relations
        ≡ one_if (leb 1 (known core c) && points_to p (core.coops c).parent_coop_ptr)
  pub parents : (p c : ℕ) → 0 < pairs p c core.parent_child_relations → 0 < known core p
  pub above :
      (p c : ℕ)
      → 0 < pairs p c core.parent_child_relations
      → 0 < times c core.registered_coop
      → 0 < times p core.registered_coop
  pub older : (p c : ℕ) → 0 < pairs p c core.parent_child_relations → age p < age c

-- The usages of a coop are its children and the tokens that others hold. The last one gone, it is
-- sent to the final deregistration, once.
pub record Counted (core : Core) (tokens : ℕ → ℕ) : Type 0 where
  pub usages :
      (n : ℕ)
      → 0 < known core n
      → (core.coops n).reference_count ≡ kids n core.parent_child_relations + tokens n
  pub unknown : (n : ℕ) → known core n ≡ 0 → tokens n ≡ 0
  pub queued :
      (n : ℕ)
      → times n core.final_dereg_chain
        ≡ one_if (leb 1 (known core n) && ((core.coops n).reference_count == 0))
  pub status :
      (n : ℕ)
      → 0 < known core n
      → (core.coops n).registration_status
        ≡ (if (core.coops n).reference_count == 0 then coop_deregistering else coop_registered)

abbrev pub without_one : ℕ → (ℕ → ℕ) → ℕ → ℕ
without_one n tokens m = tokens m - one_if (m == n)

-- The objects keep their parents.
pub record IsSameBut (core core' : Core) : Type 0 where
  pub registered : core'.registered_coop ≡ core.registered_coop
  pub deregistered : core'.deregistered_coop ≡ core.deregistered_coop
  pub same_relations : core'.parent_child_relations ≡ core.parent_child_relations
  pub pointers : (n : ℕ) → (core'.coops n).parent_coop_ptr ≡ (core.coops n).parent_coop_ptr

pub IsSameBut-Linked : (core core' : Core) → IsSameBut core core' → Linked core → Linked core'
IsSameBut-Linked core core' s v = record {
  age = v.age;
  unique = λ n. rw (s.registered, s.deregistered) (v.unique n);
  relations =
      λ p c. rw (s.registered, s.deregistered, s.same_relations, s.pointers c) (v.relations p c);
  parents = rw (s.registered, s.deregistered, s.same_relations) v.parents;
  above = rw (s.registered, s.same_relations) v.above;
  older = rw s.same_relations v.older;
}

pub decrement-IsSameBut : (n : ℕ) (core : Core) → IsSameBut core (decrement_usage_count n core)
unfolding decrement_usage_count
decrement-IsSameBut n core =
    elim (Bool-cases (
      (dec_size (core.coops n).reference_count == 0)
      && is_registered (core.coops n).registration_status)) [
        | inl last ↦
            rw (last, decrement_usage_count)
              (record {
                registered = refl;
                deregistered = refl;
                same_relations = refl;
                pointers = λ m. ground arith;
              })
        | inr more ↦
            rw (more, decrement_usage_count)
              (record {
                registered = refl;
                deregistered = refl;
                same_relations = refl;
                pointers = λ m. ground arith;
              })
      ]

dec_size_lem : (k : ℕ) → 0 < k → dec_size k ≡ k - 1
dec_size_lem k h = ground arith

-- What decrement_usage_count does to a registered coop that has usages.
record Decremented (n : ℕ) (core core' : Core) : Type 0 where
  counts :
      (m : ℕ) → (core'.coops m).reference_count ≡ (core.coops m).reference_count - one_if (m == n)
  statuses :
      (m : ℕ)
      → (core'.coops m).registration_status ≡ (
          if (m == n) && ((core.coops n).reference_count == 1)
          then coop_deregistering
          else (core.coops m).registration_status)
  sent :
      (m : ℕ)
      → times m core'.final_dereg_chain
        ≡ times m core.final_dereg_chain
          + one_if ((m == n) && ((core.coops n).reference_count == 1))

decrement-Decremented :
    (n : ℕ) (core : Core)
    → 0 < (core.coops n).reference_count
    → (core.coops n).registration_status ≡ coop_registered
    → Decremented n core (decrement_usage_count n core)
unfolding decrement_usage_count
decrement-Decremented n core h st =
    let dec = dec_size_lem (core.coops n).reference_count h in
    elim (Bool-cases ((core.coops n).reference_count == 1)) [
      | inl last ↦
          let zero_left : (dec_size (core.coops n).reference_count == 0) ≡ true =
            ground (arith, dec) in
          rw (zero_left, st, decrement_usage_count)
            (record {
              counts = λ m. ground (arith, dec);
              statuses = λ m. ground (arith, last);
              sent = λ m. ground (arith, last, times-append m core.final_dereg_chain (n ∷ []));
            })
      | inr more ↦
          let left : (dec_size (core.coops n).reference_count == 0) ≡ false = ground (arith, dec) in
          rw (left, decrement_usage_count)
            (record {
              counts = λ m. ground (arith, dec);
              statuses = λ m. ground (arith, more);
              sent = λ m. ground (arith, more);
            })
    ]

-- One who holds a token gives it back.
pub decrement-Counted :
    (n : ℕ) (core : Core) (tokens : ℕ → ℕ)
    → Counted core tokens
    → 0 < known core n
    → 0 < tokens n
    → Counted (decrement_usage_count n core) (without_one n tokens)
decrement-Counted n core tokens v k h =
    let s = decrement-IsSameBut n core in
    let d =
      decrement-Decremented n core (omega (arith, v.usages n k))
        (ground (arith, v.usages n k, v.status n k)) in
    let same : (m : ℕ) → known (decrement_usage_count n core) m ≡ known core m =
      λ m. rw (s.registered, s.deregistered) refl in
    record {
      usages = λ m l. rw s.same_relations (ground (arith, d.counts m, v.usages m, same m));
      unknown = λ m l. ground (arith, v.unknown m, same m);
      queued = λ m. ground (arith, d.sent m, d.counts m, v.queued m, v.usages n, same m);
      status = λ m l. ground (arith, d.statuses m, d.counts m, v.status m, v.usages n, same m);
    }
