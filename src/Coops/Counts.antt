-- ===== src/Coops/Counts.antt =====
-- How often a name is in a map, and a pair in the set of relations.
use android_vendor_sobjectiz.Common.{
  ℕ, suc, ◌+◌, ◌-◌, ◌==◌, leb, if◌then◌else◌, ◌&&◌, List, [], ◌∷◌, length, ◌≡◌, ◌<◌, ◌≤◌, refl,
  arith,
}
use android_vendor_sobjectiz.Coops.Data.{
  Relation, mem, insert, erase, is_relation, insert_relation, erase_relation, children,
}
use android_vendor_sobjectiz.Coops.Operations.{insert_all}
pub use android_vendor_sobjectiz.Common.{times, one_if, times-append}

abbrev pub pairs : ℕ → ℕ → List Relation → ℕ
pairs p c [] = 0
pairs p c (r ∷ rs) = if is_relation p c r then suc (pairs p c rs) else pairs p c rs

-- The relations of a parent.
abbrev pub kids : ℕ → List Relation → ℕ
kids p [] = 0
kids p (r ∷ rs) = if r.parent == p then suc (kids p rs) else kids p rs

pub mem-times : (n : ℕ) (xs : List ℕ) → mem n xs ≡ leb 1 (times n xs)
unfolding mem
mem-times n [] = refl
mem-times n (x ∷ xs) = ground (arith, mem-times n xs)

pub times-insert :
    (m n : ℕ) (xs : List ℕ) → times n xs ≡ 0 → times m (insert n xs) ≡ times m xs + one_if (m == n)
unfolding insert
times-insert m n [] h = ground arith
times-insert m n (x ∷ xs) h = ground (arith, times-insert m n xs)

pub times-erase : (m n : ℕ) (xs : List ℕ) → times m (erase n xs) ≡ times m xs - one_if (m == n)
unfolding erase
times-erase m n [] = ground arith
times-erase m n (x ∷ xs) = ground (arith, times-erase m n xs)

pub pairs-insert_relation :
    (p c p' c' : ℕ) (rs : List Relation)
    → pairs p' c' rs ≡ 0
    → pairs p c (insert_relation p' c' rs) ≡ pairs p c rs + one_if ((p == p') && (c == c'))
unfolding insert_relation
pairs-insert_relation p c p' c' [] h = ground arith
pairs-insert_relation p c p' c' (r ∷ rs) h = ground (arith, pairs-insert_relation p c p' c' rs)

pub kids-insert_relation :
    (p p' c' : ℕ) (rs : List Relation)
    → pairs p' c' rs ≡ 0
    → kids p (insert_relation p' c' rs) ≡ kids p rs + one_if (p == p')
unfolding insert_relation
kids-insert_relation p p' c' [] h = ground arith
kids-insert_relation p p' c' (r ∷ rs) h = ground (arith, kids-insert_relation p p' c' rs)

pub pairs-erase_relation :
    (p c p' c' : ℕ) (rs : List Relation)
    → pairs p c (erase_relation p' c' rs) ≡ pairs p c rs - one_if ((p == p') && (c == c'))
unfolding erase_relation
pairs-erase_relation p c p' c' [] = ground arith
pairs-erase_relation p c p' c' (r ∷ rs) = ground (arith, pairs-erase_relation p c p' c' rs)

pub kids-erase_relation :
    (p p' c' : ℕ) (rs : List Relation)
    → 0 < pairs p' c' rs
    → kids p (erase_relation p' c' rs) + one_if (p == p') ≡ kids p rs
unfolding erase_relation
kids-erase_relation p p' c' [] h = absurd (omega arith)
kids-erase_relation p p' c' (r ∷ rs) h = ground (arith, kids-erase_relation p p' c' rs)

pub pairs-le : (p c : ℕ) (rs : List Relation) → pairs p c rs ≤ kids p rs
pairs-le p c [] = omega arith
pairs-le p c (r ∷ rs) = ground (arith, pairs-le p c rs)

pub no_pairs-kids : (p : ℕ) (rs : List Relation) → ((c : ℕ) → pairs p c rs ≡ 0) → kids p rs ≡ 0
no_pairs-kids p [] h = refl
no_pairs-kids p (r ∷ rs) h =
    ground (arith, h r.child, no_pairs-kids p rs (λ c. ground (arith, h c)))

pub times-children : (p c : ℕ) (rs : List Relation) → times c (children p rs) ≡ pairs p c rs
unfolding children
times-children p c [] = refl
times-children p c (r ∷ rs) = ground (arith, times-children p c rs)

pub times-insert_all :
    (n : ℕ) (ns xs : List ℕ)
    → ((m : ℕ) → times m ns + times m xs ≤ 1)
    → times n (insert_all ns xs) ≡ times n ns + times n xs
unfolding insert_all
times-insert_all n [] xs h = omega arith
times-insert_all n (m ∷ ns) xs h =
    let fresh : times m xs ≡ 0 = ground (arith, h m) in
    ground (
      arith,
      times-insert n m xs fresh,
      times-insert_all n ns (insert m xs) (λ k. ground (arith, h k, times-insert k m xs fresh)),
    )

times-lt : (n : ℕ) (xs : List ℕ) → 0 < times n xs → length xs ≡ suc (length (erase n xs))
unfolding erase
times-lt n [] h = absurd (omega arith)
times-lt n (x ∷ xs) h = ground (arith, times-lt n xs)

-- A list that holds nothing more often than another one is not longer.
pub times-length : (xs ys : List ℕ) → ((n : ℕ) → times n xs ≤ times n ys) → length xs ≤ length ys
times-length [] ys h = omega arith
times-length (x ∷ xs) ys h =
    let has : 0 < times x ys = ground (arith, h x) in
    omega (
      arith,
      times-lt x ys has,
      times-length xs (erase x ys) (λ n. ground (arith, h n, times-erase n x ys)),
    )
