-- ===== src/Mboxes/Limits/Creation.antt =====
-- A storage of limits that is made of descriptions.
use android_vendor_sobjectiz.Common.{
  ℕ, suc, ◌≤◌, ◌≡◌, refl, sym, arith, inl, inr, Bool-cases, leb, true, false, Option, none, some,
  List, [], ◌∷◌, ◌∙◌, map, length, Result, ok, err, several_limits_for_one_message_type,
}
use android_vendor_sobjectiz.Mboxes.Limits.{
  Description, InfoBlock, InfoStorage, make_block, sort, adjacent_find, build_blocks,
  find_block_in_small_container, find_block_in_large_container, find_block, create_if_necessary,
}
use android_vendor_sobjectiz.Mboxes.Limits.Sorting.{
  described_times, described, IsStrict, times-sort, block-sort, sort-IsOrdered, IsOrdered-IsStrict,
  adjacent-times, IsStrict-times,
}
use android_vendor_sobjectiz.Mboxes.Limits.Searches.{
  found_at, small-block, Here, small-Here, at-lt, search_lem,
}

pub record Finds (ds : List Description) (s : InfoStorage) : Type 0 where
  pub same_searches :
      (ty : ℕ)
      → find_block_in_large_container ty s.blocks ≡ find_block_in_small_container ty s.blocks
  pub found : (ty : ℕ) → found_at s.blocks (find_block ty s) ≡ described ty ds
  pub there : (ty p : ℕ) → find_block ty s ≡ some p → Here ty p s.blocks
  pub single : (ty : ℕ) → described_times ty ds ≤ 1

abbrev pub IsCreated : List Description → Result (Option InfoStorage) → Type 0
IsCreated ds (ok none) = ds ≡ []
IsCreated ds (ok (some s)) = Finds ds s
IsCreated ds (err r) =
    (r ≡ several_limits_for_one_message_type) × ((ty : ℕ) × (2 ≤ described_times ty ds))

large-small :
    (ty : ℕ) (bs : List InfoBlock)
    → IsStrict bs
    → find_block_in_large_container ty bs ≡ find_block_in_small_container ty bs
unfolding find_block_in_large_container
large-small ty bs s =
    search_lem (suc (length bs)) ty bs 0 (length bs) s (omega arith) (omega arith) (λ p here.
      let h = small-Here ty p bs here in (omega arith, omega (arith, at-lt p bs h.block h.at_)))

block-small :
    (ty : ℕ) (s : InfoStorage)
    → IsStrict s.blocks
    → find_block ty s ≡ find_block_in_small_container ty s.blocks
unfolding find_block
block-small ty s k = elim (Bool-cases s.small_container) [
  | inl e ↦ rw e refl
  | inr e ↦ rw e (large-small ty s.blocks k)
]

build_twice :
    (ds : List Description)
    → adjacent_find (sort (map make_block ds)) ≡ true
    → build_blocks ds ≡ err several_limits_for_one_message_type
unfolding build_blocks
build_twice ds e = rw e refl

build_once :
    (ds : List Description)
    → adjacent_find (sort (map make_block ds)) ≡ false
    → build_blocks ds ≡ ok (sort (map make_block ds))
unfolding build_blocks
build_once ds e = rw e refl

sorted-Finds :
    (ds : List Description) (s : InfoStorage)
    → s.blocks ≡ sort (map make_block ds)
    → IsStrict s.blocks
    → Finds ds s
sorted-Finds ds s e k = record {
  same_searches = λ ty. large-small ty s.blocks k;
  found = λ ty. rw (block-small ty s k) (small-block ty s.blocks ∙ rw e (block-sort ty ds));
  there = λ ty p h. small-Here ty p s.blocks (rw (sym (block-small ty s k)) h);
  single = λ ty. rw (sym (times-sort ty ds)) (rw (sym e) (IsStrict-times ty s.blocks k));
}

-- For any descriptions of limits: if there is no storage there are no descriptions; if it throws, the
-- exception is that of several limits for one message type, and some type is described twice; and if a
-- storage is made, no type is described twice, its linear and its binary search find the same block for
-- each type, and the search that its size chooses finds the block of the description of the type, or
-- none if the type is not described.
pub create-IsCreated :
    (first : ℕ) (ds : List Description) → IsCreated ds (create_if_necessary first ds)
unfolding create_if_necessary
create-IsCreated first [] = refl
create-IsCreated first (d ∷ ds) =
    let bs = sort (map make_block (d ∷ ds)) in
    elim (Bool-cases (adjacent_find bs)) [
      | inl twice ↦
          let t = adjacent-times bs twice in
          rw (build_twice (d ∷ ds) twice, create_if_necessary)
            (refl, (t.0, rw (sym (times-sort t.0 (d ∷ ds))) t.1))
      | inr once ↦
          rw (build_once (d ∷ ds) once, create_if_necessary)
            (sorted-Finds (d ∷ ds)
              (record { first = first; blocks = bs; small_container = leb (length bs) 8 }) refl
              (IsOrdered-IsStrict bs (sort-IsOrdered (map make_block (d ∷ ds))) once))
    ]
