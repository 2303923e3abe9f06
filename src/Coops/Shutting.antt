-- ===== src/Coops/Shutting.antt =====
-- do_deregistration_specific_actions, for one coop and for all that are registered.
use android_vendor_sobjectiz.Common.{ℕ, ◌-◌, List, [], ◌∷◌, ◌≡◌, ◌<◌, ◌≤◌, refl, ◌∙◌, arith}
use android_vendor_sobjectiz.Coops.Data.{Core, put_coop}
use android_vendor_sobjectiz.Coops.Operations.{
  do_deregistration_specific_actions, shut_all, shutdown, deregister_all_coop, insert_all,
}
use android_vendor_sobjectiz.Coops.Counts.{times, times-insert_all}
use android_vendor_sobjectiz.Coops.Invariant.{
  known, Linked, Counted, IsSameBut, IsSameBut-Linked, without_one, decrement-IsSameBut,
  decrement-Counted,
}
use android_vendor_sobjectiz.Coops.Deregistration.{Counted-same}

module _ (reason n : ℕ) (core : Core) where
  abbrev reasoned : Core
  reasoned = put_coop n (record (core.coops n) { dereg_reason = reason }) core

  reasoned-Counted : (tokens : ℕ → ℕ) → Counted core tokens → Counted reasoned tokens
  reasoned-Counted tokens v = record {
    usages = λ m h. ground (arith, v.usages m, h);
    unknown = v.unknown;
    queued = λ m. ground (arith, v.queued m);
    status = λ m h. ground (arith, v.status m, h);
  }

  pub shut-IsSameBut : IsSameBut core (do_deregistration_specific_actions reason n core)
  unfolding do_deregistration_specific_actions
  shut-IsSameBut =
      let s = decrement-IsSameBut n reasoned in
      record {
        registered = s.registered;
        deregistered = s.deregistered;
        same_relations = s.same_relations;
        pointers = λ m. s.pointers m ∙ ground arith;
      }

  -- The token for being registered is given back.
  pub shut-Counted :
      (tokens : ℕ → ℕ)
      → Counted core tokens
      → 0 < known core n
      → 0 < tokens n
      → Counted (do_deregistration_specific_actions reason n core) (without_one n tokens)
  unfolding do_deregistration_specific_actions
  shut-Counted tokens v k h = decrement-Counted n reasoned tokens (reasoned-Counted tokens v) k h

IsSameBut-refl : (core : Core) → IsSameBut core core
IsSameBut-refl core = record {
  registered = refl;
  deregistered = refl;
  same_relations = refl;
  pointers = λ n. refl;
}

IsSameBut-trans : (a b c : Core) → IsSameBut a b → IsSameBut b c → IsSameBut a c
IsSameBut-trans a b c s t = record {
  registered = t.registered ∙ s.registered;
  deregistered = t.deregistered ∙ s.deregistered;
  same_relations = t.same_relations ∙ s.same_relations;
  pointers = λ n. t.pointers n ∙ s.pointers n;
}

abbrev pub without_all : List ℕ → (ℕ → ℕ) → ℕ → ℕ
without_all ns tokens m = tokens m - times m ns

shut_all-IsSameBut : (ns : List ℕ) (core : Core) → IsSameBut core (shut_all ns core)
unfolding shut_all
shut_all-IsSameBut [] core = IsSameBut-refl core
shut_all-IsSameBut (n ∷ ns) core =
    IsSameBut-trans core (do_deregistration_specific_actions shutdown n core) _
      (shut-IsSameBut shutdown n core) (shut_all-IsSameBut ns _)

shut_all-Counted :
    (ns : List ℕ) (core : Core) (tokens : ℕ → ℕ)
    → Counted core tokens
    → ((m : ℕ) → times m ns ≤ tokens m)
    → ((m : ℕ) → times m ns ≤ known core m)
    → Counted (shut_all ns core) (without_all ns tokens)
unfolding shut_all
shut_all-Counted [] core tokens v own k = Counted-same core tokens _ (λ m. omega arith) v
shut_all-Counted (n ∷ ns) core tokens v own k =
    let next = do_deregistration_specific_actions shutdown n core in
    let s = shut-IsSameBut shutdown n core in
    let same : (m : ℕ) → known next m ≡ known core m =
      λ m. rw (s.registered, s.deregistered) refl in
    let w = shut-Counted shutdown n core tokens v (ground (arith, k n)) (ground (arith, own n)) in
    Counted-same (shut_all ns next) (without_all ns (without_one n tokens)) _ (λ m. ground arith)
      (shut_all-Counted ns next (without_one n tokens) w (λ m. ground (arith, own m))
        (λ m. ground (arith, k m, same m)))

module _ (core : Core) (v : Linked core) (tokens : ℕ → ℕ) where
  abbrev shut : Core
  shut = shut_all core.registered_coop core

  s : IsSameBut core shut
  s = shut_all-IsSameBut core.registered_coop core

  all_down :
      (m : ℕ) → times m (insert_all shut.registered_coop shut.deregistered_coop) ≡ known core m
  all_down m =
      rw (s.registered, s.deregistered)
        (times-insert_all m core.registered_coop core.deregistered_coop v.unique)

  known-shut : (m : ℕ) → known shut m ≡ known core m
  known-shut m = rw (s.registered, s.deregistered) refl

  pub deregister_all-Linked : Linked (deregister_all_coop core)
  unfolding deregister_all_coop
  deregister_all-Linked =
      let w = IsSameBut-Linked core shut s v in
      record {
        age = w.age;
        unique = λ m. omega (arith, all_down m, v.unique m);
        relations = λ p c. rw (all_down c) (ground (arith, w.relations p c, known-shut c));
        parents = λ p c h. omega (arith, all_down p, known-shut p, w.parents p c h);
        above = λ p c h k. absurd (omega arith);
        older = w.older;
      }

  pub deregister_all-Counted :
      Counted core tokens
      → ((m : ℕ) → times m core.registered_coop ≤ tokens m)
      → Counted (deregister_all_coop core) (without_all core.registered_coop tokens)
  unfolding deregister_all_coop
  deregister_all-Counted u own =
      let w = shut_all-Counted core.registered_coop core tokens u own (λ m. omega arith) in
      record {
        usages = λ m h. w.usages m (omega (arith, all_down m, known-shut m, h));
        unknown = λ m h. w.unknown m (omega (arith, all_down m, known-shut m, h));
        queued = λ m. w.queued m ∙ rw (all_down m) (ground (arith, known-shut m));
        status = λ m h. w.status m (omega (arith, all_down m, known-shut m, h));
      }

  pub deregister_all-down :
      (m : ℕ) → times m (deregister_all_coop core).deregistered_coop ≡ known core m
  unfolding deregister_all_coop
  deregister_all-down m = all_down m
