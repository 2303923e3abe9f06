-- ===== src/Subscriptions/MapBased/Neighbours.antt =====
-- The map in the order of its keys: items of one mbox and type stand together, so the two neighbours
-- of an item tell whether there is another one of its pair.
use android_vendor_sobjectiz.Common.{
  ℕ, ◌≡◌, ◌≤◌, ◌<◌, leb, Bool, true, false, ◌||◌, Option, none, some, List, [], ◌∷◌, arith, refl,
  Bool-cases, inl, inr,
}
use android_vendor_sobjectiz.Subscriptions.Data.{Info, same_key, is_same_mbox_msg}
use android_vendor_sobjectiz.Subscriptions.Content.{count, without, has, count-le, without-none}
use android_vendor_sobjectiz.Subscriptions.MapBased.{
  key_lt, is_pair, first, is_known_mbox_msg_pair, erase_while, erase_from_lower_bound, lower_bound,
}
use android_vendor_sobjectiz.Subscriptions.MapBased.Order.{IsBelow, AllAbove, IsAscending}

abbrev pub IsUnder : Option Info → List Info → Type 0
IsUnder none es = Unit
IsUnder (some i) es = AllAbove i es

-- Past the pair nothing of it follows.
past_pair :
    (m t : ℕ) (i : Info) (es : List Info)
    → key_lt i m t 0 ≡ false
    → is_same_mbox_msg m t i ≡ false
    → AllAbove i es
    → count (is_same_mbox_msg m t) es ≡ 0
past_pair m t i [] g n a = refl
past_pair m t i (j ∷ es) g n a = ground (arith, past_pair m t i es g n a.1)

pair-ge : (m t : ℕ) (i : Info) → is_same_mbox_msg m t i ≡ true → key_lt i m t 0 ≡ false
pair-ge m t i h = ground arith

below-ge : (m t : ℕ) (i j : Info) → key_lt i m t 0 ≡ false → IsBelow i j → key_lt j m t 0 ≡ false
below-ge m t i j h b = ground arith

module _ (m t s : ℕ) where
  key-pair : (es : List Info) → count (same_key m t s) es ≤ count (is_same_mbox_msg m t) es
  key-pair es = count-le (same_key m t s) (is_same_mbox_msg m t) es (λ i e. ground arith)

  pub next_lem :
      (i : Info) (es : List Info)
      → is_same_mbox_msg m t i ≡ true
      → AllAbove i es
      → IsAscending es
      → is_pair m t (first es) ≡ has (is_same_mbox_msg m t) es
  next_lem i [] h a asc = refl
  next_lem i (j ∷ es) h a asc = elim (Bool-cases (is_same_mbox_msg m t j)) [
    | inl same ↦ ground arith
    | inr other ↦
        let none_left = past_pair m t j es (below-ge m t i j (pair-ge m t i h) a.0) other asc.0 in
        ground arith
  ]

  -- An item before the list that is of the pair, while the first of the list is not.
  prev_lem :
      (p : Option Info) (i : Info) (es : List Info)
      → is_same_mbox_msg m t i ≡ false
      → IsUnder p (i ∷ es)
      → IsAscending (i ∷ es)
      → 0 < count (is_same_mbox_msg m t) es
      → is_pair m t p ≡ false
  prev_lem none i es n u asc h = refl
  prev_lem (some p) i es n u asc h = elim (Bool-cases (is_same_mbox_msg m t p)) [
    | inl same ↦
        let none_left = past_pair m t i es (below-ge m t p i (pair-ge m t p same) u.0) n asc.0 in
        absurd (omega arith)
    | inr other ↦ other
  ]

  pub known_lem :
      (p : Option Info) (es : List Info)
      → IsUnder p es
      → IsAscending es
      → 0 < count (same_key m t s) es
      → is_known_mbox_msg_pair m t s p es
        ≡ (is_pair m t p || leb 2 (count (is_same_mbox_msg m t) es))
  unfolding is_known_mbox_msg_pair
  known_lem p [] u asc h = absurd (omega arith)
  known_lem p (i ∷ es) u asc h = elim (Bool-cases (same_key m t s i)) [
    | inl here ↦
        let same : is_same_mbox_msg m t i ≡ true = ground arith in
        ground (arith, next_lem i es same asc.0 asc.1)
    | inr later ↦
        let more : 0 < count (same_key m t s) es = ground arith in
        let rest = known_lem (some i) es asc.0 asc.1 more in
        elim (Bool-cases (is_same_mbox_msg m t i)) [
          | inl same ↦ ground (arith, key-pair es)
          | inr other ↦
              let none_before = prev_lem p i es other u asc (omega (arith, key-pair es)) in
              ground arith
        ]
  ]

module _ (m t : ℕ) where
  erase_while-without :
      (i : Info) (es : List Info)
      → key_lt i m t 0 ≡ false
      → AllAbove i es
      → IsAscending es
      → (P : Info → Bool)
      → count P (erase_while m t es) ≡ count P (without (is_same_mbox_msg m t) es)
  unfolding erase_while
  erase_while-without i [] g a asc P = refl
  erase_while-without i (j ∷ es) g a asc P = elim (Bool-cases (is_same_mbox_msg m t j)) [
    | inl same ↦ ground (arith, erase_while-without i es g a.1 asc.1 P)
    | inr other ↦
        let none_left = past_pair m t j es (below-ge m t i j g a.0) other asc.0 in
        ground (arith, without-none (is_same_mbox_msg m t) es none_left)
  ]

  pub erase_from_lower_bound-without :
      (es : List Info)
      → IsAscending es
      → (P : Info → Bool)
      → count P (erase_from_lower_bound m t es) ≡ count P (without (is_same_mbox_msg m t) es)
  unfolding erase_from_lower_bound erase_while
  erase_from_lower_bound-without [] asc P = refl
  erase_from_lower_bound-without (i ∷ es) asc P = elim (Bool-cases (key_lt i m t 0)) [
    | inl below ↦
        let other : is_same_mbox_msg m t i ≡ false = ground arith in
        ground (arith, erase_from_lower_bound-without es asc.1 P)
    | inr ge ↦ elim (Bool-cases (is_same_mbox_msg m t i)) [
      | inl same ↦ ground (arith, erase_while-without i es ge asc.0 asc.1 P)
      | inr other ↦
          let none_left = past_pair m t i es ge other asc.0 in
          ground (arith, without-none (is_same_mbox_msg m t) es none_left)
    ]
  ]

  pub lower_bound-has :
      (es : List Info)
      → IsAscending es
      → is_pair m t (lower_bound m t es) ≡ has (is_same_mbox_msg m t) es
  unfolding lower_bound
  lower_bound-has [] asc = refl
  lower_bound-has (i ∷ es) asc = elim (Bool-cases (key_lt i m t 0)) [
    | inl below ↦
        let other : is_same_mbox_msg m t i ≡ false = ground arith in
        ground (arith, lower_bound-has es asc.1)
    | inr ge ↦ elim (Bool-cases (is_same_mbox_msg m t i)) [
      | inl same ↦ ground arith
      | inr other ↦ let none_left = past_pair m t i es ge other asc.0 in ground arith
    ]
  ]

  AllAbove-erase_while :
      (x : Info) (es : List Info) → AllAbove x es → AllAbove x (erase_while m t es)
  unfolding erase_while
  AllAbove-erase_while x [] a = tt
  AllAbove-erase_while x (i ∷ es) a = ground (arith, AllAbove-erase_while x es)

  IsAscending-erase_while : (es : List Info) → IsAscending es → IsAscending (erase_while m t es)
  unfolding erase_while
  IsAscending-erase_while [] asc = tt
  IsAscending-erase_while (i ∷ es) asc = ground (arith, IsAscending-erase_while es)

  AllAbove-erase_from_lower_bound :
      (x : Info) (es : List Info) → AllAbove x es → AllAbove x (erase_from_lower_bound m t es)
  unfolding erase_from_lower_bound
  AllAbove-erase_from_lower_bound x [] a = tt
  AllAbove-erase_from_lower_bound x (i ∷ es) a =
      ground (arith, AllAbove-erase_from_lower_bound x es, AllAbove-erase_while x (i ∷ es))

  pub IsAscending-erase_from_lower_bound :
      (es : List Info) → IsAscending es → IsAscending (erase_from_lower_bound m t es)
  unfolding erase_from_lower_bound
  IsAscending-erase_from_lower_bound [] asc = tt
  IsAscending-erase_from_lower_bound (i ∷ es) asc = ground (
    arith,
    IsAscending-erase_from_lower_bound es,
    AllAbove-erase_from_lower_bound i es,
    IsAscending-erase_while (i ∷ es),
  )
