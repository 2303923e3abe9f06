-- ===== src/Mboxes/Limits.antt =====
-- so_5/rt/impl/h/message_limit_internals.hpp, info_storage_t: the message limits of one agent, sorted
-- by the type of message, with the control block and the reaction of each (so_5/rt/h/message.hpp,
-- so_5/rt/h/message_limit.hpp). An iterator is a position.
use android_vendor_sobjectiz.Common.{
  ℕ, zero, suc, ◌+◌, ◌-◌, ltb, leb, ◌==◌, ◌||◌, if◌then◌else◌, Bool, true, false, Option, none,
  some, List, [], ◌∷◌, map, length, is_nil, Result, ok, err, several_limits_for_one_message_type,
}
use Prim.Native.Nat.{◌/◌}
pub mod Sorting
pub mod Searches
pub mod Creation

-- The target of a transformation is a mbox and a message, for each message.
pub data Reaction : Type 0 where
  drop_message abort_app : Reaction
  redirect : ℕ → Reaction
  transform : ℕ → (ℕ → ℕ × ℕ) → Reaction

pub record ControlBlock : Type 0 where
  pub limit : ℕ
  pub action : Reaction

pub record Description : Type 0 where
  pub msg_type : ℕ
  pub limit : ℕ
  pub action : Reaction

pub record InfoBlock : Type 0 where
  pub msg_type : ℕ
  pub control_block : ControlBlock

-- The blocks stand one after another, and `first` is the address of the first control block.
pub record InfoStorage : Type 0 where
  pub first : ℕ
  pub blocks : List InfoBlock
  pub small_container : Bool

unfoldable pub make_block : Description → InfoBlock
make_block d = record {
  msg_type = d.msg_type;
  control_block = record { limit = d.limit; action = d.action };
}

-- std::sort by types; it may order equal types otherwise, but then the list is refused.
unfoldable pub insert_block : InfoBlock → List InfoBlock → List InfoBlock
insert_block x [] = x ∷ []
insert_block x (b ∷ bs) = if leb x.msg_type b.msg_type then x ∷ b ∷ bs else b ∷ insert_block x bs

unfoldable pub sort : List InfoBlock → List InfoBlock
unfolding insert_block
sort [] = []
sort (b ∷ bs) = insert_block b (sort bs)

-- Whether std::adjacent_find finds two of one type.
unfoldable pub adjacent_find : List InfoBlock → Bool
adjacent_find [] = false
adjacent_find (b ∷ []) = false
adjacent_find (b ∷ c ∷ bs) = (b.msg_type == c.msg_type) || adjacent_find (c ∷ bs)

unfoldable pub build_blocks : List Description → Result (List InfoBlock)
unfolding sort insert_block adjacent_find make_block
build_blocks ds =
    let result = sort (map make_block ds) in
    if adjacent_find result then err several_limits_for_one_message_type else ok result

unfoldable pub find_block_in_small_container : ℕ → List InfoBlock → Option ℕ
find_block_in_small_container ty [] = none
find_block_in_small_container ty (b ∷ bs) =
    if b.msg_type == ty
    then some 0
    else elim (find_block_in_small_container ty bs) [ none ↦ none | some p ↦ some (suc p) ]

abbrev pub block_at : List InfoBlock → ℕ → Option InfoBlock
block_at [] p = none
block_at (b ∷ bs) zero = some b
block_at (b ∷ bs) (suc p) = block_at bs p

-- The loop of the binary search, on fuel, with `left` and `count`.
unfoldable pub binary_search : ℕ → ℕ → List InfoBlock → ℕ → ℕ → Option ℕ
binary_search zero ty bs left count = none
binary_search (suc fuel) ty bs left count =
    let step = count / 2 in
    let middle = left + step in
    let right = binary_search fuel ty bs (middle + 1) (count - (step + 1)) in
    let lower = binary_search fuel ty bs left step in
    if count == 0 then none else elim (block_at bs middle) [
      | none ↦ none
      | some b ↦
          if b.msg_type == ty then some middle else (if ltb b.msg_type ty then right else lower)
    ]

-- Each round leaves less than there was.
unfoldable pub find_block_in_large_container : ℕ → List InfoBlock → Option ℕ
unfolding binary_search
find_block_in_large_container ty bs = binary_search (suc (length bs)) ty bs 0 (length bs)

unfoldable pub find_block : ℕ → InfoStorage → Option ℕ
find_block ty s =
    if s.small_container
    then find_block_in_small_container ty s.blocks
    else find_block_in_large_container ty s.blocks

-- The address of the control block of a type, none for the null pointer.
unfoldable pub find : ℕ → InfoStorage → Option ℕ
find ty s = elim (find_block ty s) [ none ↦ none | some p ↦ some (s.first + p) ]

unfoldable pub create_if_necessary : ℕ → List Description → Result (Option InfoStorage)
create_if_necessary first ds = if is_nil ds then ok none else elim (build_blocks ds) [
  | err r ↦ err r
  | ok bs ↦ ok (some (record { first = first; blocks = bs; small_container = leb (length bs) 8 }))
]
