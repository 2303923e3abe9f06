-- ===== src/Mboxes/Limits/Sorting.antt =====
-- The blocks of the storage of limits in order, and what that says of the descriptions.
use android_vendor_sobjectiz.Common.{
  ℕ, suc, ◌≤◌, ◌<◌, ◌≡◌, refl, arith, inl, inr, Bool-cases, leb, ◌==◌, if◌then◌else◌, true, false,
  Option, none, some, List, [], ◌∷◌, map,
}
use android_vendor_sobjectiz.Mboxes.Limits.{
  Description, InfoBlock, make_block, insert_block, sort, adjacent_find,
}

-- How often a type is described, and its first description.
abbrev pub described_times : ℕ → List Description → ℕ
described_times ty [] = 0
described_times ty (d ∷ ds) =
    if d.msg_type == ty then suc (described_times ty ds) else described_times ty ds

abbrev pub described : ℕ → List Description → Option InfoBlock
described ty [] = none
described ty (d ∷ ds) = if d.msg_type == ty then some (make_block d) else described ty ds

abbrev pub times_of : ℕ → List InfoBlock → ℕ
times_of ty [] = 0
times_of ty (b ∷ bs) = if b.msg_type == ty then suc (times_of ty bs) else times_of ty bs

abbrev pub block_of : ℕ → List InfoBlock → Option InfoBlock
block_of ty [] = none
block_of ty (b ∷ bs) = if b.msg_type == ty then some b else block_of ty bs

times-insert :
    (ty : ℕ) (x : InfoBlock) (bs : List InfoBlock)
    → times_of ty (insert_block x bs) ≡ times_of ty (x ∷ bs)
unfolding insert_block
times-insert ty x [] = refl
times-insert ty x (b ∷ bs) = ground (arith, times-insert ty x bs)

block-insert :
    (ty : ℕ) (x : InfoBlock) (bs : List InfoBlock)
    → block_of ty (insert_block x bs) ≡ block_of ty (x ∷ bs)
unfolding insert_block
block-insert ty x [] = refl
block-insert ty x (b ∷ bs) = ground (arith, block-insert ty x bs)

pub times-sort :
    (ty : ℕ) (ds : List Description)
    → times_of ty (sort (map make_block ds)) ≡ described_times ty ds
unfolding sort make_block
times-sort ty [] = refl
times-sort ty (d ∷ ds) =
    ground (arith, times-insert ty (make_block d) (sort (map make_block ds)), times-sort ty ds)

pub block-sort :
    (ty : ℕ) (ds : List Description) → block_of ty (sort (map make_block ds)) ≡ described ty ds
unfolding sort make_block
block-sort ty [] = refl
block-sort ty (d ∷ ds) =
    ground (arith, block-insert ty (make_block d) (sort (map make_block ds)), block-sort ty ds)

-- In order, and in order without equals.
abbrev pub AllFrom : ℕ → List InfoBlock → Type 0
AllFrom n [] = Unit
AllFrom n (b ∷ bs) = (n ≤ b.msg_type) × AllFrom n bs

abbrev pub IsOrdered : List InfoBlock → Type 0
IsOrdered [] = Unit
IsOrdered (b ∷ bs) = AllFrom b.msg_type bs × IsOrdered bs

abbrev pub IsStrict : List InfoBlock → Type 0
IsStrict [] = Unit
IsStrict (b ∷ bs) = AllFrom (suc b.msg_type) bs × IsStrict bs

AllFrom-le : (n m : ℕ) (bs : List InfoBlock) → n ≤ m → AllFrom m bs → AllFrom n bs
AllFrom-le n m [] h a = tt
AllFrom-le n m (b ∷ bs) h a = (omega (arith, a.0), AllFrom-le n m bs h a.1)

AllFrom-insert :
    (n : ℕ) (x : InfoBlock) (bs : List InfoBlock)
    → n ≤ x.msg_type
    → AllFrom n bs
    → AllFrom n (insert_block x bs)
unfolding insert_block
AllFrom-insert n x [] h a = (h, tt)
AllFrom-insert n x (b ∷ bs) h a = elim (Bool-cases (leb x.msg_type b.msg_type)) [
  | inl e ↦ rw e (h, a)
  | inr e ↦ rw e (a.0, AllFrom-insert n x bs h a.1)
]

IsOrdered-insert :
    (x : InfoBlock) (bs : List InfoBlock) → IsOrdered bs → IsOrdered (insert_block x bs)
unfolding insert_block
IsOrdered-insert x [] o = (tt, tt)
IsOrdered-insert x (b ∷ bs) o = elim (Bool-cases (leb x.msg_type b.msg_type)) [
  | inl e ↦
      let le : x.msg_type ≤ b.msg_type = ground arith in
      rw e ((le, AllFrom-le x.msg_type b.msg_type bs le o.0), o)
  | inr e ↦ rw e (AllFrom-insert b.msg_type x bs (ground arith) o.0, IsOrdered-insert x bs o.1)
]

pub sort-IsOrdered : (bs : List InfoBlock) → IsOrdered (sort bs)
unfolding sort
sort-IsOrdered [] = tt
sort-IsOrdered (b ∷ bs) = IsOrdered-insert b (sort bs) (sort-IsOrdered bs)

pub IsOrdered-IsStrict :
    (bs : List InfoBlock) → IsOrdered bs → adjacent_find bs ≡ false → IsStrict bs
unfolding adjacent_find
IsOrdered-IsStrict [] o h = tt
IsOrdered-IsStrict (b ∷ []) o h = (tt, tt)
IsOrdered-IsStrict (b ∷ c ∷ bs) o h =
    let lt : suc b.msg_type ≤ c.msg_type = ground (arith, o.0.0) in
    let rest = IsOrdered-IsStrict (c ∷ bs) o.1 (ground arith) in
    ((lt, AllFrom-le (suc b.msg_type) (suc c.msg_type) bs (omega arith) rest.0), rest)

pub adjacent-times :
    (bs : List InfoBlock) → adjacent_find bs ≡ true → (ty : ℕ) × (2 ≤ times_of ty bs)
unfolding adjacent_find
adjacent-times [] h = cc
adjacent-times (b ∷ []) h = cc
adjacent-times (b ∷ c ∷ bs) h = elim (Bool-cases (b.msg_type == c.msg_type)) [
  | inl e ↦ (b.msg_type, ground (arith, e))
  | inr e ↦
      let later = adjacent-times (c ∷ bs) (ground (arith, e, h)) in
      (later.0, ground (arith, later.1))
]

AllFrom-times : (n ty : ℕ) (bs : List InfoBlock) → AllFrom n bs → ty < n → times_of ty bs ≡ 0
AllFrom-times n ty [] a h = refl
AllFrom-times n ty (b ∷ bs) a h = ground (arith, a.0, AllFrom-times n ty bs a.1 h)

pub IsStrict-times : (ty : ℕ) (bs : List InfoBlock) → IsStrict bs → times_of ty bs ≤ 1
IsStrict-times ty [] s = omega arith
IsStrict-times ty (b ∷ bs) s = elim (Bool-cases (b.msg_type == ty)) [
  | inl e ↦ ground (arith, e, AllFrom-times (suc b.msg_type) ty bs s.0 (ground arith))
  | inr e ↦ ground (arith, e, IsStrict-times ty bs s.1)
]
