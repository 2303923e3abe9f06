-- ===== src/Agents/Dispatch/Nearest.antt =====
-- The handler that is found is the one of the nearest state.
use android_vendor_sobjectiz.Common.{
  ℕ, zero, suc, ◌+◌, leb, if◌then◌else◌, true, Option, none, some, List, ◌≡◌, ◌<◌, refl, sym, ap,
  ◌∙◌, arith, inl, inr, Bool-cases, Option-cases,
}
use android_vendor_sobjectiz.Agents.States.{Table, parent_of, level_of}
use android_vendor_sobjectiz.Agents.States.Shape.{IsTree, above_of, above_self, above-parent}
use android_vendor_sobjectiz.Subscriptions.Data.{Info}
use android_vendor_sobjectiz.Subscriptions.Content.{lookup}
use android_vendor_sobjectiz.Subscriptions.Storage.{StorageOps, StorageLaws}
use android_vendor_sobjectiz.Agents.Dispatch.{Search, found, not_found, goes_on, find_event_handler}

module _ (t : Table) (xs : List Info) (mbox msg_type : ℕ) where
  -- The handler that the state at level `j` above `s` has among the subscriptions.
  abbrev pub handler_at : ℕ → ℕ → Option ℕ
  handler_at s j = if leb j (level_of t s) then lookup mbox msg_type (above_of t s j) xs else none

  -- What is found is at some level, and there is none at the levels further inside.
  abbrev pub Nearest : ℕ → Search → Type 0
  Nearest s (found h) =
      (j : ℕ) × (handler_at s j ≡ some h) × ((k : ℕ) → handler_at s (suc (j + k)) ≡ none)
  Nearest s not_found = (k : ℕ) → handler_at s k ≡ none
  Nearest s goes_on = ⊥

  handler_at-parent :
      (tree : IsTree t) (s p : ℕ)
      → s < t.count
      → parent_of t s ≡ some p
      → lookup mbox msg_type s xs ≡ none
      → (j : ℕ) → handler_at p j ≡ handler_at s j
  handler_at-parent tree s p h parent e j =
      let (hp, lp, c) = tree.parents s p h parent in
      elim (Bool-cases (leb j (level_of t p))) [
        | inl up ↦
            let up' : leb j (level_of t s) ≡ true = ground (arith, lp) in
            let same = above-parent t tree s p j h parent (ground arith) in rw (up, up', same) refl
        | inr off ↦ elim (Bool-cases (leb j (level_of t s))) [
          | inr off' ↦ rw (off, off') refl
          | inl here ↦
              let eq : j ≡ level_of t s = ground (arith, lp) in
              let at : above_of t s j ≡ s = ap (above_of t s) eq ∙ above_self t tree s in
              rw (off, here, at) (sym e)
        ]
      ]

  handler_at-none :
      (s : ℕ)
      → lookup mbox msg_type s xs ≡ none
      → level_of t s ≡ 0
      → above_of t s 0 ≡ s
      → (k : ℕ) → handler_at s k ≡ none
  handler_at-none s free l at zero = ground (arith, l, at, free)
  handler_at-none s free l at (suc k) = ground (arith, l)

  Nearest-parent :
      (s p : ℕ)
      → ((j : ℕ) → handler_at p j ≡ handler_at s j)
      → (r : Search) → Nearest p r
      → Nearest s r
  Nearest-parent s p same (found h) (j, e, off) =
      (j, sym (same j) ∙ e, λ k. sym (same (suc (j + k))) ∙ off k)
  Nearest-parent s p same not_found off = λ k. sym (same k) ∙ off k
  Nearest-parent s p same goes_on n = n

module _ {S : Type 0} (ops : StorageOps S) (laws : StorageLaws ops) (t : Table) (tree : IsTree t)
    (store : S) (valid : laws.IsValid store) where
  -- Whatever storage of subscriptions the agent has, the search ends after at most as many rounds as
  -- the state has states around it and one more, with the handler of the nearest state around the
  -- current one, itself included, that has a subscription, or with null if none of them has.
  pub find_event_handler-Nearest :
      (fuel mbox msg_type s : ℕ)
      → s < t.count
      → level_of t s < fuel
      → Nearest t
          (ops.query_content store)
          mbox
          msg_type
          s
          (find_event_handler ops fuel t store mbox msg_type s)
  unfolding find_event_handler
  find_event_handler-Nearest zero mbox msg_type s h f = absurd (omega arith)
  find_event_handler-Nearest (suc fuel) mbox msg_type s h f =
      let law = laws.find_lem mbox msg_type s store valid in
      let at = above_self t tree s in
      elim (Option-cases (ops.find_handler mbox msg_type s store)) [
        | inr (x, e) ↦
            rw (e, find_event_handler) (level_of t s, ground (arith, at, law, e), λ k. ground arith)
        | inl e ↦
            let free : lookup mbox msg_type s (ops.query_content store) ≡ none = sym law ∙ e in
            elim (Option-cases (parent_of t s)) [
              | inl top ↦
                  let l0 = tree.top s h top in
                  let at0 : above_of t s 0 ≡ s = ap (above_of t s) (sym l0) ∙ at in
                  rw (e, top, find_event_handler)
                    (handler_at-none t (ops.query_content store) mbox msg_type s free l0 at0)
              | inr (p, parent) ↦
                  let (hp, lp, c) = tree.parents s p h parent in
                  rw (e, parent, find_event_handler)
                    (Nearest-parent t (ops.query_content store) mbox msg_type s p
                      (handler_at-parent t (ops.query_content store) mbox msg_type tree s p h parent
                        free)
                      _ (find_event_handler-Nearest fuel mbox msg_type p hp (omega arith)))
            ]
      ]
