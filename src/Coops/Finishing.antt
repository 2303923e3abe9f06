-- ===== src/Coops/Finishing.antt =====
-- final_deregister_coop for a coop that the final deregistration has received.
use android_vendor_sobjectiz.Common.{
  ℕ, suc, ◌+◌, ◌-◌, ◌==◌, leb, if◌then◌else◌, Bool, true, false, not, ◌&&◌, Option, none, some,
  List, ◌∷◌, ◌≡◌, ◌≢◌, ◌<◌, ◌≤◌, refl, ap, ◌∙◌, arith, inl, inr, Bool-cases,
}
use android_vendor_sobjectiz.Coops.Data.{Core, mem, erase, erase_relation}
use android_vendor_sobjectiz.Coops.Operations.{
  decrement_usage_count, finaly_remove_cooperation_info,
}
use android_vendor_sobjectiz.Coops.Counts.{
  times, pairs, kids, one_if, mem-times, times-erase, pairs-erase_relation, kids-erase_relation,
  pairs-le,
}
use android_vendor_sobjectiz.Coops.Invariant.{
  known, points_to, Linked, Counted, IsSameBut-Linked, without_one, decrement-IsSameBut,
  decrement-Counted,
}
use android_vendor_sobjectiz.Coops.Deregistration.{Counted-same}

-- The registry when the coop at the head of the chain has been received.
abbrev pub received : List ℕ → Core → Core
received rest core = record core { final_dereg_chain = rest }

-- A coop that is sent to the final deregistration is being deregistered, and nobody uses it.
pub record IsOver (n : ℕ) (core : Core) (tokens : ℕ → ℕ) : Type 0 where
  pub down : times n core.deregistered_coop ≡ 1
  pub not_up : times n core.registered_coop ≡ 0
  pub childless : kids n core.parent_child_relations ≡ 0
  pub unused : tokens n ≡ 0
  pub sent_once : times n core.final_dereg_chain ≡ 1

module _ (n : ℕ) (rest : List ℕ) (core : Core) (tokens : ℕ → ℕ) (v : Linked core)
    (u : Counted core tokens) (own : (m : ℕ) → times m core.registered_coop ≤ tokens m)
    (head : core.final_dereg_chain ≡ n ∷ rest) where
  sent : times n core.final_dereg_chain ≡ suc (times n rest)
  sent = rw head (ground arith)

  here : (0 < known core n) × ((core.coops n).reference_count ≡ 0)
  here = (ground (arith, u.queued n, sent), ground (arith, u.queued n, sent))

  -- What the coop at the head of the chain is.
  pub chain-IsOver : IsOver n core tokens
  chain-IsOver =
      let k = u.usages n here.0 in
      let c = here.1 in
      record {
        down = omega (arith, own n, k, c, v.unique n, here.0);
        not_up = omega (arith, own n, k, c);
        childless = omega (arith, k, c);
        unused = omega (arith, k, c);
        sent_once = ground (arith, u.queued n, sent);
      }

  -- Out of the maps, and out of the relations if `p` is its parent.
  abbrev gone : Core
  gone = record core {
    final_dereg_chain = rest;
    deregistered_coop = erase n core.deregistered_coop;
    total_agent_count = core.total_agent_count - (core.coops n).agent_count;
  }

  abbrev out : ℕ → Core
  out p = record gone { parent_child_relations = erase_relation p n core.parent_child_relations }

  abbrev end : Option ℕ → Core
  end none = gone
  end (some p) = decrement_usage_count p (out p)

  removed_lem :
      finaly_remove_cooperation_info n (received rest core) ≡ end (core.coops n).parent_coop_ptr
  unfolding finaly_remove_cooperation_info
  removed_lem =
      let e : mem n core.deregistered_coop ≡ true =
        mem-times n core.deregistered_coop ∙ ground (arith, chain-IsOver.down) in
      by_test (mem n core.deregistered_coop) e (core.coops n).parent_coop_ptr
    where
      by_test :
          (b : Bool)
          → b ≡ true
          → (o : Option ℕ)
          → (if not b
              then received rest core
              else elim o [ none ↦ gone | some p ↦ decrement_usage_count p (out p) ])
            ≡ end o
      by_test true e none = refl
      by_test true e (some p) = refl
      by_test false e o = absurd cc

  known-gone : (m : ℕ) → known gone m ≡ known core m - one_if (m == n)
  known-gone m =
      ground (arith, times-erase m n core.deregistered_coop, chain-IsOver.down, chain-IsOver.not_up)

  chain-gone : (m : ℕ) → times m rest ≡ times m core.final_dereg_chain - one_if (m == n)
  chain-gone m = rw head (ground arith)

  no_child : (c : ℕ) → pairs n c core.parent_child_relations ≡ 0
  no_child c = omega (arith, pairs-le n c core.parent_child_relations, chain-IsOver.childless)

  module _ (orphan : (core.coops n).parent_coop_ptr ≡ none) where
    gone-Linked : Linked gone
    gone-Linked = record {
      age = v.age;
      unique = λ m. omega (arith, known-gone m, v.unique m);
      relations =
          λ p c. ground (arith, known-gone c, v.relations p c, v.relations p n, orphan, v.unique c);
      parents = λ p c h. ground (arith, known-gone p, v.parents p c, no_child c, v.unique p, h);
      above = v.above;
      older = v.older;
    }

    gone-Counted : Counted gone tokens
    gone-Counted = record {
      usages = λ m h. u.usages m (omega (arith, known-gone m, h));
      unknown = λ m h. ground (arith, known-gone m, u.unknown m, chain-IsOver.unused, v.unique m);
      queued = λ m. ground (arith, chain-gone m, known-gone m, u.queued m, here, sent, v.unique m);
      status = λ m h. u.status m (omega (arith, known-gone m, h));
    }

  module _ (p : ℕ) (child : (core.coops n).parent_coop_ptr ≡ some p) where
    pair : pairs p n core.parent_child_relations ≡ 1
    pair = ground (arith, v.relations p n, child, here)

    other : p ≢ n
    other e = omega (arith, v.older p n (omega (arith, pair)), ap v.age e)

    fewer :
        (q c : ℕ)
        → pairs q c (out p).parent_child_relations
          ≡ pairs q c core.parent_child_relations - one_if ((q == p) && (c == n))
    fewer q c = pairs-erase_relation q c p n core.parent_child_relations

    fewer_kids :
        (q : ℕ)
        → kids q (out p).parent_child_relations + one_if (q == p)
          ≡ kids q core.parent_child_relations
    fewer_kids q = kids-erase_relation q p n core.parent_child_relations (omega (arith, pair))

    relations-out :
        (q c : ℕ)
        → pairs q c (out p).parent_child_relations
          ≡ one_if (leb 1 (known (out p) c) && points_to q (core.coops c).parent_coop_ptr)
    relations-out q c = elim (Bool-cases (c == n)) [
      | inr off ↦ ground (arith, fewer q c, off, known-gone c, v.relations q c)
      | inl at ↦
          let e : c ≡ n = ground arith in
          let free : known gone c ≡ 0 = ground (arith, known-gone c, at, v.unique c) in
          let only : pairs q n core.parent_child_relations ≡ one_if (q == p) =
            ground (arith, v.relations q n, child, here) in
          rw free
            (ground (arith, fewer q c, at, ap (λ x. pairs q x core.parent_child_relations) e, only))
    ]

    out-Linked : Linked (out p)
    out-Linked = record {
      age = v.age;
      unique = λ m. omega (arith, known-gone m, v.unique m);
      relations = relations-out;
      parents = λ q c h.
          ground (arith, fewer q c, known-gone q, v.parents q c, no_child c, v.unique q, h);
      above = λ q c h k. v.above q c (omega (arith, fewer q c, h)) k;
      older = λ q c h. v.older q c (omega (arith, fewer q c, h));
    }

    -- The usage of the parent for its child is a token now.
    out-Counted : Counted (out p) (λ m. tokens m + one_if (m == p))
    out-Counted = record {
      usages = λ m h. omega (arith, u.usages m (omega (arith, known-gone m, h)), fewer_kids m);
      unknown = λ m h. ground (
        arith,
        known-gone m,
        u.unknown m,
        chain-IsOver.unused,
        v.unique m,
        other,
        v.parents p n,
        pair,
      );
      queued = λ m. ground (arith, chain-gone m, known-gone m, u.queued m, here, sent, v.unique m);
      status = λ m h. u.status m (omega (arith, known-gone m, h));
    }

    known-parent : 0 < known (out p) p
    known-parent = ground (arith, known-gone p, v.parents p n, pair, other)

    end-Linked : Linked (decrement_usage_count p (out p))
    end-Linked = IsSameBut-Linked (out p) _ (decrement-IsSameBut p (out p)) out-Linked

    end-Counted : Counted (decrement_usage_count p (out p)) tokens
    end-Counted =
        Counted-same _ (without_one p (λ m. tokens m + one_if (m == p))) tokens (λ m. omega arith)
          (decrement-Counted p (out p) (λ m. tokens m + one_if (m == p)) out-Counted known-parent
            (ground arith))

  by_parent :
      (o : Option ℕ) → (core.coops n).parent_coop_ptr ≡ o → Linked (end o) × Counted (end o) tokens
  by_parent none e = (gone-Linked e, gone-Counted e)
  by_parent (some p) e = (end-Linked p e, end-Counted p e)

  pub removed-Linked : Linked (finaly_remove_cooperation_info n (received rest core))
  removed-Linked = rw removed_lem (by_parent (core.coops n).parent_coop_ptr refl).0

  pub removed-Counted : Counted (finaly_remove_cooperation_info n (received rest core)) tokens
  removed-Counted = rw removed_lem (by_parent (core.coops n).parent_coop_ptr refl).1

  end-maps :
      (o : Option ℕ)
      → ((end o).registered_coop ≡ core.registered_coop)
        × ((end o).deregistered_coop ≡ erase n core.deregistered_coop)
  end-maps none = (refl, refl)
  end-maps (some p) = let s = decrement-IsSameBut p (out p) in (s.registered, s.deregistered)

  pub removed-maps :
      ((finaly_remove_cooperation_info n (received rest core)).registered_coop
        ≡ core.registered_coop)
      × ((finaly_remove_cooperation_info n (received rest core)).deregistered_coop
          ≡ erase n core.deregistered_coop)
  removed-maps = rw removed_lem (end-maps (core.coops n).parent_coop_ptr)
