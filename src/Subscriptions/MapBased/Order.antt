-- ===== src/Subscriptions/MapBased/Order.antt =====
-- The map in the order of its keys: what stands next to what.
use android_vendor_sobjectiz.Common.{
  ℕ, ◌≡◌, Bool, true, List, [], ◌∷◌, arith, refl, Bool-cases, inl, inr,
}
use android_vendor_sobjectiz.Subscriptions.Data.{Info, same_key}
use android_vendor_sobjectiz.Subscriptions.Content.{count, IsUnique}
use android_vendor_sobjectiz.Subscriptions.MapBased.{key_lt, emplace, erase}

abbrev pub IsBelow : Info → Info → Type 0
IsBelow i j = key_lt i j.mbox j.msg_type j.state ≡ true

abbrev pub AllAbove : Info → List Info → Type 0
AllAbove i [] = Unit
AllAbove i (j ∷ js) = IsBelow i j × AllAbove i js

abbrev pub IsAscending : List Info → Type 0
IsAscending [] = Unit
IsAscending (i ∷ is_) = AllAbove i is_ × IsAscending is_

IsBelow-trans : (i j k : Info) → IsBelow i j → IsBelow j k → IsBelow i k
IsBelow-trans i j k h h' = ground arith

AllAbove-below : (i j : Info) (es : List Info) → IsBelow i j → AllAbove j es → AllAbove i es
AllAbove-below i j [] h a = tt
AllAbove-below i j (k ∷ es) h a = (IsBelow-trans i j k h a.0, AllAbove-below i j es h a.1)

AllAbove-emplace :
    (x i : Info) (es : List Info) → IsBelow x i → AllAbove x es → AllAbove x (emplace i es)
unfolding emplace
AllAbove-emplace x i [] h a = (h, tt)
AllAbove-emplace x i (j ∷ js) h a = ground (arith, AllAbove-emplace x i js)

pub IsAscending-emplace : (i : Info) (es : List Info) → IsAscending es → IsAscending (emplace i es)
unfolding emplace
IsAscending-emplace i [] s = (tt, tt)
IsAscending-emplace i (j ∷ js) s = elim (Bool-cases (key_lt i j.mbox j.msg_type j.state)) [
  | inl lt ↦ rw lt ((lt, AllAbove-below i j js lt s.0), s)
  | inr ge ↦ rw ge (elim (Bool-cases (key_lt j i.mbox i.msg_type i.state)) [
    | inl gt ↦ rw gt (AllAbove-emplace j i js gt s.0, IsAscending-emplace i js s.1)
    | inr eq ↦ rw eq s
  ])
]

-- Above an item there is none with its key.
pub AllAbove-key :
    (i : Info) (es : List Info) → AllAbove i es → count (same_key i.mbox i.msg_type i.state) es ≡ 0
AllAbove-key i [] a = refl
AllAbove-key i (j ∷ es) a = ground (arith, AllAbove-key i es)

pub IsAscending-IsUnique : (es : List Info) → IsAscending es → IsUnique es
IsAscending-IsUnique [] asc m t s = omega arith
IsAscending-IsUnique (i ∷ es) asc m t s = elim (Bool-cases (same_key m t s i)) [
  | inl here ↦ ground (arith, AllAbove-key i es asc.0)
  | inr later ↦ ground (arith, IsAscending-IsUnique es asc.1 m t s)
]

-- With a key below all of an ascending list it is not there.
below-none :
    (i j : Info) (es : List Info)
    → IsBelow i j
    → AllAbove j es
    → count (same_key i.mbox i.msg_type i.state) (j ∷ es) ≡ 0
below-none i j es h a = AllAbove-key i (j ∷ es) (h, AllAbove-below i j es h a)

pub count-emplace :
    (P : Info → Bool) (i : Info) (es : List Info)
    → IsAscending es
    → count (same_key i.mbox i.msg_type i.state) es ≡ 0
    → count P (emplace i es) ≡ count P (i ∷ es)
unfolding emplace
count-emplace P i [] asc new = refl
count-emplace P i (j ∷ es) asc new = ground (arith, count-emplace P i es asc.1)

AllAbove-erase :
    (m t s : ℕ) (x : Info) (es : List Info) → AllAbove x es → AllAbove x (erase m t s es)
unfolding erase
AllAbove-erase m t s x [] a = tt
AllAbove-erase m t s x (j ∷ es) a = ground (arith, AllAbove-erase m t s x es)

pub IsAscending-erase : (m t s : ℕ) (es : List Info) → IsAscending es → IsAscending (erase m t s es)
unfolding erase
IsAscending-erase m t s [] asc = tt
IsAscending-erase m t s (j ∷ es) asc =
    ground (arith, IsAscending-erase m t s es, AllAbove-erase m t s j es)
