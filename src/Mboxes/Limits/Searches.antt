-- ===== src/Mboxes/Limits/Searches.antt =====
-- Both searches of the storage of limits find the block of a type.
use android_vendor_sobjectiz.Common.{
  ℕ, zero, suc, ◌+◌, ◌-◌, ◌≤◌, ◌<◌, ◌≡◌, refl, sym, ap, arith, inl, inr, Bool-cases, Option-cases,
  ltb, ◌==◌, if◌then◌else◌, true, false, Option, none, some, List, [], ◌∷◌, length, ◌∙◌,
}
use Prim.Native.Nat.{◌/◌}
use android_vendor_sobjectiz.Mboxes.Limits.{
  InfoBlock, find_block_in_small_container, block_at, binary_search,
}
use android_vendor_sobjectiz.Mboxes.Limits.Sorting.{block_of, AllFrom, IsStrict}

abbrev pub found_at : List InfoBlock → Option ℕ → Option InfoBlock
found_at bs none = none
found_at bs (some p) = block_at bs p

small-cons :
    (ty : ℕ) (b : InfoBlock) (bs : List InfoBlock) (o : Option ℕ)
    → found_at (b ∷ bs) (elim o [ none ↦ none | some p ↦ some (suc p) ]) ≡ found_at bs o
small-cons ty b bs none = refl
small-cons ty b bs (some p) = refl

pub small-block :
    (ty : ℕ) (bs : List InfoBlock)
    → found_at bs (find_block_in_small_container ty bs) ≡ block_of ty bs
unfolding find_block_in_small_container
small-block ty [] = refl
small-block ty (b ∷ bs) = elim (Bool-cases (b.msg_type == ty)) [
  | inl e ↦ rw e refl
  | inr e ↦ rw e (small-cons ty b bs (find_block_in_small_container ty bs) ∙ small-block ty bs)
]

AllFrom-at :
    (n p : ℕ) (bs : List InfoBlock) (b : InfoBlock)
    → AllFrom n bs
    → block_at bs p ≡ some b
    → n ≤ b.msg_type
AllFrom-at n p [] b a h = cc
AllFrom-at n zero (c ∷ bs) b a h = let same : c ≡ b = cc in rw (sym same) a.0
AllFrom-at n (suc p) (c ∷ bs) b a h = AllFrom-at n p bs b a.1 h

small-at :
    (ty p : ℕ) (bs : List InfoBlock) (b : InfoBlock)
    → IsStrict bs
    → block_at bs p ≡ some b
    → b.msg_type ≡ ty
    → find_block_in_small_container ty bs ≡ some p
unfolding find_block_in_small_container
small-at ty p [] b s h e = cc
small-at ty zero (c ∷ bs) b s h e =
    let same : c ≡ b = cc in
    let here : (c.msg_type == ty) ≡ true = rw same (ground arith) in rw here refl
small-at ty (suc p) (c ∷ bs) b s h e =
    let above = AllFrom-at (suc c.msg_type) p bs b s.0 h in
    let later : (c.msg_type == ty) ≡ false = ground (arith, above) in
    rw (later, small-at ty p bs b s.1 h e) refl

-- A block that is found is there, with its type.
pub record Here (ty p : ℕ) (bs : List InfoBlock) : Type 0 where
  pub block : InfoBlock
  pub at_ : block_at bs p ≡ some block
  pub typed : block.msg_type ≡ ty

pub small-Here :
    (ty p : ℕ) (bs : List InfoBlock) → find_block_in_small_container ty bs ≡ some p → Here ty p bs
unfolding find_block_in_small_container
small-Here ty p [] h = cc
small-Here ty p (b ∷ bs) h = elim (Bool-cases (b.msg_type == ty)) [
  | inl e ↦
      let first : 0 ≡ p = ground (arith, e, h) in
      record { block = b; at_ = rw (sym first) refl; typed = ground (arith, e) }
  | inr e ↦ elim (Option-cases (find_block_in_small_container ty bs)) [
    | inl gone ↦ absurd (ground (arith, e, gone, h))
    | inr (q, later) ↦
        let next : suc q ≡ p = ground (arith, e, later, h) in
        let rest = small-Here ty q bs later in
        record { block = rest.block; at_ = rw (sym next) rest.at_; typed = rest.typed }
  ]
]

-- In a list without equals, types that rise stand at positions that rise.
rising :
    (p q : ℕ) (bs : List InfoBlock) (b c : InfoBlock)
    → IsStrict bs
    → block_at bs p ≡ some b
    → block_at bs q ≡ some c
    → b.msg_type < c.msg_type
    → p < q
rising p q [] b c s h k lt = cc
rising zero zero (d ∷ bs) b c s h k lt =
    let same : b ≡ c = cc in absurd (omega (arith, ap (λ x. x.msg_type) same))
rising zero (suc q) (d ∷ bs) b c s h k lt = omega arith
rising (suc p) zero (d ∷ bs) b c s h k lt =
    let same : d ≡ c = cc in
    let above = AllFrom-at (suc d.msg_type) p bs b s.0 h in
    absurd (omega (arith, above, ap (λ x. x.msg_type) same))
rising (suc p) (suc q) (d ∷ bs) b c s h k lt = omega (arith, rising p q bs b c s.1 h k lt)

pub at-lt : (p : ℕ) (bs : List InfoBlock) (b : InfoBlock) → block_at bs p ≡ some b → p < length bs
at-lt p [] b h = cc
at-lt zero (c ∷ bs) b h = omega arith
at-lt (suc p) (c ∷ bs) b h = omega (arith, at-lt p bs b h)

inside : (p : ℕ) (bs : List InfoBlock) → p < length bs → (b : InfoBlock) × (block_at bs p ≡ some b)
inside p [] h = absurd (omega arith)
inside zero (b ∷ bs) h = (b, refl)
inside (suc p) (b ∷ bs) h = inside p bs (omega arith)

search-step :
    (fuel ty : ℕ) (bs : List InfoBlock) (left count : ℕ) (b : InfoBlock)
    → (count == 0) ≡ false
    → block_at bs (left + count / 2) ≡ some b
    → binary_search (suc fuel) ty bs left count ≡ (
        if b.msg_type == ty
        then some (left + count / 2)
        else (if ltb b.msg_type ty
            then binary_search fuel ty bs (left + count / 2 + 1) (count - (count / 2 + 1))
            else binary_search fuel ty bs left (count / 2)))
unfolding binary_search
search-step fuel ty bs left count b nz e = rw (nz, e) refl

search-nothing :
    (fuel ty : ℕ) (bs : List InfoBlock) (left count : ℕ)
    → (count == 0) ≡ true
    → binary_search (suc fuel) ty bs left count ≡ none
unfolding binary_search
search-nothing fuel ty bs left count e = rw e refl

-- What the linear search finds is between `left` and `left + count`.
abbrev IsBetween : ℕ → List InfoBlock → ℕ → ℕ → Type 0
IsBetween ty bs left count =
    (p : ℕ) → find_block_in_small_container ty bs ≡ some p → (left ≤ p) × (p < left + count)

pub search_lem :
    (fuel ty : ℕ) (bs : List InfoBlock) (left count : ℕ)
    → IsStrict bs
    → count < fuel
    → left + count ≤ length bs
    → IsBetween ty bs left count
    → binary_search fuel ty bs left count ≡ find_block_in_small_container ty bs
search_lem zero ty bs left count s lt le between = absurd (omega arith)
search_lem (suc fuel) ty bs left count s lt le between = elim (Bool-cases (count == 0)) [
  | inl e ↦ elim (Option-cases (find_block_in_small_container ty bs)) [
    | inl gone ↦ rw gone (search-nothing fuel ty bs left count e)
    | inr (p, here) ↦
        let b = between p here in
        let zero_ : count ≡ 0 = ground (arith, e) in absurd (omega (arith, b.0, b.1))
  ]
  | inr nz ↦
      let pos : 0 < count = ground (arith, nz) in
      let m = inside (left + count / 2) bs (omega arith) in
      let b = m.0 in
      rw (search-step fuel ty bs left count b nz m.1) (elim (Bool-cases (b.msg_type == ty)) [
        | inl here ↦
            rw here (sym (small-at ty (left + count / 2) bs b s m.1 (ground (arith, here))))
        | inr other ↦ rw other (elim (Bool-cases (ltb b.msg_type ty)) [
          | inl below ↦ rw below (
              search_lem fuel ty bs (left + count / 2 + 1) (count - (count / 2 + 1)) s (omega arith)
                (omega arith)
                (λ p here.
                  let h = small-Here ty p bs here in
                  let up =
                    rising (left + count / 2) p bs b h.block s m.1 h.at_
                      (ground (arith, below, h.typed)) in
                  let old = between p here in (omega (arith, up), omega (arith, old.1, up))))
          | inr above ↦ rw above (
              search_lem fuel ty bs left (count / 2) s (omega arith) (omega arith) (λ p here.
                let h = small-Here ty p bs here in
                let down =
                  rising p (left + count / 2) bs h.block b s h.at_ m.1
                    (ground (arith, above, other, h.typed)) in
                let old = between p here in (old.0, omega (arith, down))))
        ])
      ])
]
