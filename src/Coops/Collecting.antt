-- ===== src/Coops/Collecting.antt =====
-- collect_coops: it ends, and finds a coop with all registered ones below it, each once.
use android_vendor_sobjectiz.Common.{
  ℕ, zero, suc, ◌+◌, ◌==◌, leb, if◌then◌else◌, true, Option, none, some, List, [], ◌∷◌, ◌++◌,
  length, length-append, ◌≡◌, ◌<◌, ◌≤◌, refl, ap, ◌∙◌, arith, inl, inr, ◌⊎◌, Bool-cases,
}
use android_vendor_sobjectiz.Coops.Data.{Core, mem, children}
use android_vendor_sobjectiz.Coops.Operations.{
  visit, Collected, collected, unexpected, goes_on, collect_coops,
}
use android_vendor_sobjectiz.Coops.Counts.{
  times, pairs, mem-times, times-append, times-children, times-length,
}
use android_vendor_sobjectiz.Coops.Invariant.{known, points_to, Linked}

module _ (core : Core) (v : Linked core) where
  abbrev only_registered : ℕ → ℕ → ℕ
  only_registered m k = if leb 1 (times m core.registered_coop) then k else 0

  -- All children are known, so the visit finds the registered ones.
  visit_lem :
      (cs : List ℕ)
      → ((m : ℕ) → 0 < times m cs → 0 < known core m)
      → (xs : List ℕ) × (visit core cs ≡ some xs)
        × ((m : ℕ) → times m xs ≡ only_registered m (times m cs))
  unfolding visit
  visit_lem [] h = ([], refl, λ m. ground arith)
  visit_lem (c ∷ cs) h =
      let (xs, e, counts) = visit_lem cs (λ m l. ground (arith, h m)) in
      let here : mem c core.registered_coop ≡ leb 1 (times c core.registered_coop) =
        mem-times c core.registered_coop in
      elim (Bool-cases (leb 1 (times c core.registered_coop))) [
        | inl up ↦ (c ∷ xs, rw (here, up, e, visit) refl, λ m. ground (arith, counts m, up))
        | inr off ↦
            let down : mem c core.deregistered_coop ≡ true =
              mem-times c core.deregistered_coop ∙ ground (arith, h c, off) in
            (xs, rw (here, off, down, visit) e, λ m. ground (arith, counts m, off))
      ]

  same_parent :
      (p q c : ℕ)
      → 0 < pairs p c core.parent_child_relations
      → 0 < pairs q c core.parent_child_relations
      → p ≡ q
  same_parent p q c h k =
      to (core.coops c).parent_coop_ptr (ground (arith, v.relations p c))
        (ground (arith, v.relations q c))
    where
      to : (o : Option ℕ) → points_to p o ≡ true → points_to q o ≡ true → p ≡ q
      to none e f = absurd cc
      to (some x) e f = ground arith

  module _ (root : ℕ) where
    -- `before` has been processed, `after` has not.
    record Found (before after : List ℕ) : Type 0 where
      once : (m : ℕ) → times m before + times m after ≤ 1
      up : (m : ℕ) → 0 < times m before + times m after → 0 < times m core.registered_coop
      closed :
          (p c : ℕ)
          → 0 < times p before
          → 0 < pairs p c core.parent_child_relations
          → 0 < times c core.registered_coop
          → 0 < times c before + times c after
      from :
          (m : ℕ)
          → 0 < times m before + times m after
          → (m ≡ root)
            ⊎ ((p : ℕ) × (0 < times p before) × (0 < pairs p m core.parent_child_relations))
      older : (m : ℕ) → 0 < times m before + times m after → v.age root ≤ v.age m
      has_root : 0 < times root before + times root after

    module _ (n : ℕ) (before after xs : List ℕ) (f : Found before (n ∷ after))
        (counts : (m : ℕ)
          → times m xs ≡ only_registered m (pairs n m core.parent_child_relations)) where
      abbrev before' : List ℕ
      before' = before ++ n ∷ []

      abbrev after' : List ℕ
      after' = after ++ xs

      at_before : (m : ℕ) → times m before' ≡ times m before + times m (n ∷ [])
      at_before m = times-append m before (n ∷ [])

      at_after : (m : ℕ) → times m after' ≡ times m after + times m xs
      at_after m = times-append m after xs

      not_yet : (m : ℕ) → 0 < times m xs → times m before + times m (n ∷ after) ≡ 0
      not_yet m h =
          let child : 0 < pairs n m core.parent_child_relations = ground (arith, counts m) in
          let parent_in : 0 < times n before + times n (n ∷ after) = ground arith in
          elim (Bool-cases (leb 1 (times m before + times m (n ∷ after)))) [
            | inr off ↦ ground arith
            | inl there ↦ elim (f.from m (ground arith)) [
              | inl e ↦
                  let lt = v.older n m child in
                  absurd (omega (arith, rw e at lt, f.older n parent_in))
              | inr (p, hp, hm) ↦
                  let e = same_parent p n m hm child in
                  absurd (ground (arith, f.once n, rw e at hp))
            ]
          ]

      closed-next :
          (p c : ℕ)
          → 0 < times p before'
          → 0 < pairs p c core.parent_child_relations
          → 0 < times c core.registered_coop
          → 0 < times c before' + times c after'
      closed-next p c h k l = elim (Bool-cases (n == p)) [
        | inl here ↦
            let e : p ≡ n = ground arith in
            ground (arith, at_before c, at_after c, counts c, rw e at k)
        | inr other ↦ ground (arith, at_before c, at_after c, at_before p, other, f.closed p c)
      ]

      from-next :
          (m : ℕ)
          → 0 < times m before' + times m after'
          → (m ≡ root)
            ⊎ ((p : ℕ) × (0 < times p before') × (0 < pairs p m core.parent_child_relations))
      from-next m h = elim (Bool-cases (leb 1 (times m xs))) [
        | inl new ↦ inr (n, ground (arith, at_before n), ground (arith, counts m))
        | inr old ↦ elim (f.from m (ground (arith, at_before m, at_after m))) [
          | inl e ↦ inl e
          | inr (p, hp, hm) ↦ inr (p, ground (arith, at_before p), hm)
        ]
      ]

      older-next : (m : ℕ) → 0 < times m before' + times m after' → v.age root ≤ v.age m
      older-next m h = elim (Bool-cases (leb 1 (times m xs))) [
        | inl new ↦ omega (arith, v.older n m (ground (arith, counts m)), f.older n (ground arith))
        | inr old ↦ f.older m (ground (arith, at_before m, at_after m))
      ]

      Found-next : Found before' after'
      Found-next = record {
        once = λ m.
            ground (arith, at_before m, at_after m, f.once m, not_yet m, counts m, v.relations n m);
        up = λ m h. ground (arith, at_before m, at_after m, f.up m, counts m);
        closed = closed-next;
        from = from-next;
        older = older-next;
        has_root = ground (arith, at_before root, at_after root, f.has_root);
      }

    -- What a deregistration of `root` takes.
    pub record Subtree (ns : List ℕ) : Type 0 where
      pub once : (m : ℕ) → times m ns ≤ 1
      pub up : (m : ℕ) → 0 < times m ns → 0 < times m core.registered_coop
      pub has_root : 0 < times root ns
      pub closed :
          (p c : ℕ)
          → 0 < times p ns
          → 0 < pairs p c core.parent_child_relations
          → 0 < times c core.registered_coop
          → 0 < times c ns
      pub from :
          (m : ℕ)
          → 0 < times m ns
          → (m ≡ root) ⊎ ((p : ℕ) × (0 < times p ns) × (0 < pairs p m core.parent_child_relations))

    abbrev pub Collects : Collected → Type 0
    Collects (collected ns) = Subtree ns
    Collects unexpected = ⊥
    Collects goes_on = ⊥

    collects :
        (fuel : ℕ) (before after : List ℕ)
        → Found before after
        → length core.registered_coop ≤ fuel + length before
        → Collects (collect_coops fuel core before after)
    unfolding collect_coops
    collects fuel before [] f h = record {
      once = λ m. ground (arith, f.once m);
      up = λ m l. f.up m (omega (arith, l));
      has_root = omega (arith, f.has_root);
      closed = λ p c l k r. omega (arith, f.closed p c l k r);
      from = λ m l. f.from m (omega (arith, l));
    }
    collects zero before (n ∷ after) f h =
        let short =
          times-length (before ++ n ∷ after) core.registered_coop
            (λ m. ground (arith, times-append m before (n ∷ after), f.once m, f.up m)) in
        absurd (omega (arith, short, length-append before (n ∷ after)))
    collects (suc fuel) before (n ∷ after) f h =
        let (xs, e, counts) = visit_lem (children n core.parent_child_relations) (λ m l.
          ground (arith, times-children n m core.parent_child_relations, v.relations n m)) in
        let at : (m : ℕ) → times m xs ≡ only_registered m (pairs n m core.parent_child_relations) =
          λ m. counts m ∙ ap (only_registered m) (times-children n m core.parent_child_relations) in
        rw (e, collect_coops)
          (collects fuel (before ++ n ∷ []) (after ++ xs) (Found-next n before after xs f at)
            (omega (arith, length-append before (n ∷ []))))

    -- On a sound registry collect_coops from a registered coop ends after no more rounds than there
    -- are registered coops, without the exception for a lost child. It finds the coop and registered
    -- coops below it, each once, and with a coop all its registered children.
    pub collect_coops-Collects :
        0 < times root core.registered_coop
        → Collects (collect_coops (length core.registered_coop) core [] (root ∷ []))
    collect_coops-Collects h =
        collects (length core.registered_coop) [] (root ∷ [])
          (record {
            once = λ m. ground arith;
            up = λ m l. ground (arith, at_root m l);
            closed = λ p c l k r. absurd (omega arith);
            from = λ m l. inl (at_root m l);
            older = λ m l. omega (arith, ap v.age (at_root m l));
            has_root = ground arith;
          })
          (omega arith)
      where
        at_root : (m : ℕ) → 0 < 0 + times m (root ∷ []) → m ≡ root
        at_root m l = ground arith
