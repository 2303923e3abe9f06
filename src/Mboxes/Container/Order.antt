-- ===== src/Mboxes/Container/Order.antt =====
-- Subscribers in the order of their priorities, and what a search finds.
-- found does to each agent's entry.
use android_vendor_sobjectiz.Common.{
  ℕ, zero, suc, ◌≤◌, ◌≡◌, refl, ap, inl, inr, arith, ◌==◌, if◌then◌else◌, true, false, Bool-cases,
  Option, none, some, List, [], ◌∷◌, length,
}
use android_vendor_sobjectiz.Mboxes.Subscriber.{SubscriberInfo}
use android_vendor_sobjectiz.Mboxes.Container.{
  is_before, element, erase_at, modify_at, lower_bound, find_in_vector, find_in_map,
}

-- The entry of an agent.
abbrev pub lookup : ℕ → List SubscriberInfo → Option SubscriberInfo
lookup a [] = none
lookup a (i ∷ es) = if i.agent == a then some i else lookup a es

abbrev pub changed :
    (SubscriberInfo → SubscriberInfo) → Option SubscriberInfo → Option SubscriberInfo
changed f none = none
changed f (some i) = some (f i)

-- How many entries an agent has.
abbrev pub entries : ℕ → List SubscriberInfo → ℕ
entries a [] = 0
entries a (i ∷ es) = if i.agent == a then suc (entries a es) else entries a es

pub lookup-entries : (a : ℕ) (es : List SubscriberInfo) → lookup a es ≡ none → entries a es ≡ 0
lookup-entries a [] h = refl
lookup-entries a (i ∷ es) h = ground (arith, lookup-entries a es)

pub lookup-agent :
    (a : ℕ) (es : List SubscriberInfo) (i : SubscriberInfo) → lookup a es ≡ some i → i.agent ≡ a
lookup-agent a [] i h = cc
lookup-agent a (j ∷ es) i h = elim (Bool-cases (j.agent == a)) [
  | inl e ↦ ground (arith)
  | inr e ↦ lookup-agent a es i (ground arith)
]

pub modify_at_end :
    (f : SubscriberInfo → SubscriberInfo) (es : List SubscriberInfo)
    → modify_at (length es) f es ≡ es
unfolding modify_at
modify_at_end f [] = refl
modify_at_end f (i ∷ es) = ap (λ r. i ∷ r) (modify_at_end f es)

pub erase_at_end : (es : List SubscriberInfo) → erase_at (length es) es ≡ es
unfolding erase_at
erase_at_end [] = refl
erase_at_end (i ∷ es) = ap (λ r. i ∷ r) (erase_at_end es)

pub length-modify_at :
    (p : ℕ) (f : SubscriberInfo → SubscriberInfo) (es : List SubscriberInfo)
    → length (modify_at p f es) ≡ length es
unfolding modify_at
length-modify_at p f [] = refl
length-modify_at zero f (i ∷ es) = refl
length-modify_at (suc p) f (i ∷ es) = ap suc (length-modify_at p f es)

element_end : (es : List SubscriberInfo) → element es (length es) ≡ none
unfolding element
element_end [] = refl
element_end (i ∷ es) = element_end es

pub element-modify_at :
    (p : ℕ) (f : SubscriberInfo → SubscriberInfo) (es : List SubscriberInfo)
    → element (modify_at p f es) p ≡ changed f (element es p)
unfolding element modify_at
element-modify_at p f [] = refl
element-modify_at zero f (i ∷ es) = refl
element-modify_at (suc p) f (i ∷ es) = element-modify_at p f es

module _ (priority : ℕ → ℕ) where
  abbrev pub AllAfter : ℕ → List SubscriberInfo → Type 0
  AllAfter a [] = Unit
  AllAfter a (i ∷ es) = (is_before priority a i.agent ≡ true) × AllAfter a es

  abbrev pub IsSorted : List SubscriberInfo → Type 0
  IsSorted [] = Unit
  IsSorted (i ∷ es) = AllAfter i.agent es × IsSorted es

  pub AllAfter-before :
      (a b : ℕ) (es : List SubscriberInfo)
      → is_before priority a b ≡ true
      → AllAfter b es
      → AllAfter a es
  AllAfter-before a b [] h s = tt
  AllAfter-before a b (i ∷ es) h s = (ground arith, AllAfter-before a b es h s.1)

  pub AllAfter-lookup : (a : ℕ) (es : List SubscriberInfo) → AllAfter a es → lookup a es ≡ none
  AllAfter-lookup a [] s = refl
  AllAfter-lookup a (i ∷ es) s = ground (arith, AllAfter-lookup a es s.1)

  pub IsSorted-entries : (a : ℕ) (es : List SubscriberInfo) → IsSorted es → entries a es ≤ 1
  IsSorted-entries a [] s = omega arith
  IsSorted-entries a (i ∷ es) s = elim (Bool-cases (i.agent == a)) [
    | inl e ↦ ground (arith, AllAfter-lookup i.agent es s.0, lookup-entries i.agent es)
    | inr e ↦ ground (arith, IsSorted-entries a es s.1)
  ]

  -- An agent that goes before the first of a sorted list is not in it.
  pub before-lookup :
      (a : ℕ) (i : SubscriberInfo) (es : List SubscriberInfo)
      → IsSorted (i ∷ es)
      → is_before priority a i.agent ≡ true
      → lookup a (i ∷ es) ≡ none
  before-lookup a i es s h = AllAfter-lookup a (i ∷ es) (h, AllAfter-before a i.agent es h s.0)

  pub find-cons :
      (a : ℕ) (i : SubscriberInfo) (es : List SubscriberInfo)
      → find_in_vector priority a (i ∷ es) ≡ (
          if is_before priority i.agent a
          then suc (find_in_vector priority a es)
          else (if i.agent == a then 0 else suc (length es)))
  unfolding find_in_vector lower_bound element
  find-cons a i es = ground arith

  -- The search by the order of keys ends where the search by addresses does.
  pub find_in_map-find_in_vector :
      (a : ℕ) (es : List SubscriberInfo) → find_in_map priority a es ≡ find_in_vector priority a es
  unfolding find_in_map find_in_vector lower_bound element
  find_in_map-find_in_vector a [] = refl
  find_in_map-find_in_vector a (i ∷ es) = elim (Bool-cases (is_before priority i.agent a)) [
    | inl h ↦ ground (arith, find_in_map-find_in_vector a es, h)
    | inr h ↦ ground (arith, h)
  ]

  find-nil : (a : ℕ) → find_in_vector priority a [] ≡ 0
  unfolding find_in_vector lower_bound element
  find-nil a = refl

  -- The search ends at the end of a sorted list exactly if the agent has no entry.
  pub find-none :
      (a : ℕ) (es : List SubscriberInfo)
      → IsSorted es
      → lookup a es ≡ none
      → find_in_vector priority a es ≡ length es
  find-none a [] s h = find-nil a
  find-none a (i ∷ es) s h = ground (arith, find-cons a i es, find-none a es s.1)

  pub find-some :
      (a : ℕ) (es : List SubscriberInfo) (x : SubscriberInfo)
      → IsSorted es
      → lookup a es ≡ some x
      → (find_in_vector priority a es == length es) ≡ false
  find-some a [] x s h = cc
  find-some a (i ∷ es) x s h = elim (Bool-cases (is_before priority i.agent a)) [
    | inl e ↦ ground (arith, find-cons a i es, find-some a es x s.1)
    | inr e ↦ elim (Bool-cases (i.agent == a)) [
      | inl e' ↦ ground (arith, find-cons a i es)
      | inr e' ↦ let gone = before-lookup a i es s (ground arith) in cc
    ]
  ]

  pub element-find :
      (a : ℕ) (es : List SubscriberInfo)
      → IsSorted es
      → element es (find_in_vector priority a es) ≡ lookup a es
  unfolding element
  element-find a [] s = refl
  element-find a (i ∷ es) s =
      rw (find-cons a i es) (elim (Bool-cases (is_before priority i.agent a)) [
        | inl e ↦ ground (arith, element-find a es s.1, e)
        | inr e ↦ elim (Bool-cases (i.agent == a)) [
          | inl e' ↦ ground (arith, e, e')
          | inr e' ↦
              let gone = before-lookup a i es s (ground arith) in
              ground (arith, e, e', element_end es)
        ]
      ])
