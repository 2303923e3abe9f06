-- ===== src/Mboxes/Container/Laws.antt =====
-- The two storages of a container hold one list in order, whichever is in use.
use android_vendor_sobjectiz.Common.{
  ℕ, ◌≤◌, ◌≡◌, refl, sym, ap, inl, inr, arith, ltb, ◌==◌, true, Bool-cases, none, List, [], ◌∷◌,
  ◌++◌, length, append-nil, append_assoc, ◌∙◌,
}
use android_vendor_sobjectiz.Mboxes.Subscriber.{SubscriberInfo}
use android_vendor_sobjectiz.Mboxes.Container.{
  Container, StorageType, vector, map, elements, is_before, element, insert_at, erase_at, modify_at,
  lower_bound, find_in_vector, find_in_map, insert_to_map, insert_all, find, erase, modify,
  switch_storage_to_vector, switch_to_map, switch_to_vector,
}
use android_vendor_sobjectiz.Mboxes.Container.Order.{
  lookup, IsSorted, AllAfter, find_in_map-find_in_vector, find-none, length-modify_at,
}
use android_vendor_sobjectiz.Mboxes.Container.Changes.{length-erase_at}

-- One storage is empty, and the other in order: a vector of at most 32, or a map of at least 16.
abbrev pub IsStored : StorageType → List SubscriberInfo → List SubscriberInfo → Type 0
IsStored vector v m = (length v ≤ switch_to_map) × (m ≡ [])
IsStored map v m = (switch_to_vector ≤ length m) × (v ≡ [])

abbrev pub contained : StorageType → List SubscriberInfo → List SubscriberInfo → Container
contained t v m = record { storage = t; in_vector = v; in_map = m }

pub modify-IsStored :
    (p : ℕ) (f : SubscriberInfo → SubscriberInfo) (t : StorageType) (v m : List SubscriberInfo)
    → IsStored t v m
    → IsStored
        (modify p f (contained t v m)).storage
        (modify p f (contained t v m)).in_vector
        (modify p f (contained t v m)).in_map
unfolding modify
modify-IsStored p f vector v m k = (omega (arith, k.0, length-modify_at p f v), k.1)
modify-IsStored p f map v m k = (omega (arith, k.0, length-modify_at p f m), k.1)

by_modify :
    (p : ℕ) (f : SubscriberInfo → SubscriberInfo) (t : StorageType) (v m : List SubscriberInfo)
    → elements (modify p f (contained t v m)) ≡ modify_at p f (elements (contained t v m))
unfolding modify
by_modify p f vector v m = refl
by_modify p f map v m = refl

pub elements-modify :
    (p : ℕ) (f : SubscriberInfo → SubscriberInfo) (c : Container)
    → elements (modify p f c) ≡ modify_at p f (elements c)
elements-modify p f c = by_modify p f c.storage c.in_vector c.in_map

pub record Erases (p : ℕ) (c c' : Container) : Type 0 where
  pub same_list : elements c' ≡ erase_at p (elements c)
  pub fits : IsStored c.storage c.in_vector c.in_map → IsStored c'.storage c'.in_vector c'.in_map

-- A map that gets small moves back into a vector.
pub erase-Erases :
    (p : ℕ) (t : StorageType) (v m : List SubscriberInfo)
    → Erases p (contained t v m) (erase p (contained t v m))
unfolding erase switch_storage_to_vector
erase-Erases p vector v m = record {
  same_list = refl;
  fits = λ k. (omega (arith, k.0, length-erase_at p v), k.1);
}
erase-Erases p map v m = elim (Bool-cases (ltb (length (erase_at p m)) switch_to_vector)) [
  | inl small ↦ rw small (record { same_list = refl; fits = λ k. (ground (arith, small), refl) })
  | inr large ↦ rw large (record { same_list = refl; fits = λ k. (ground (arith, large), k.1) })
]

pub elements-erase : (p : ℕ) (c : Container) → elements (erase p c) ≡ erase_at p (elements c)
elements-erase p c = (erase-Erases p c.storage c.in_vector c.in_map).same_list

module _ (priority : ℕ → ℕ) where
  pub record IsSound (c : Container) : Type 0 where
    pub sorted : IsSorted priority (elements c)
    pub stored : IsStored c.storage c.in_vector c.in_map

  -- All of a list go before an agent.
  abbrev AllBefore : ℕ → List SubscriberInfo → Type 0
  AllBefore a [] = Unit
  AllBefore a (i ∷ es) = (is_before priority i.agent a ≡ true) × AllBefore a es

  insert_at_end :
      (x : SubscriberInfo) (es : List SubscriberInfo)
      → AllBefore x.agent es
      → insert_at (lower_bound priority x.agent es) x es ≡ es ++ x ∷ []
  unfolding insert_at lower_bound
  insert_at_end x [] h = refl
  insert_at_end x (i ∷ es) h = rw h.0 (ap (λ r. i ∷ r) (insert_at_end x es h.1))

  find_end :
      (a : ℕ) (es : List SubscriberInfo) → AllBefore a es → find_in_map priority a es ≡ length es
  unfolding find_in_map lower_bound element
  find_end a [] h = refl
  find_end a (i ∷ es) h = ground (arith, find_end a es h.1)

  AllBefore-append :
      (a : ℕ) (es : List SubscriberInfo) (x : SubscriberInfo)
      → AllBefore a es
      → is_before priority x.agent a ≡ true
      → AllBefore a (es ++ x ∷ [])
  AllBefore-append a [] x h k = (k, tt)
  AllBefore-append a (i ∷ es) x h k = (h.0, AllBefore-append a es x h.1 k)

  -- Every entry of `es` goes before every entry of `xs`.
  abbrev Follows : List SubscriberInfo → List SubscriberInfo → Type 0
  Follows es [] = Unit
  Follows es (x ∷ xs) = AllBefore x.agent es × Follows es xs

  Follows-append :
      (es : List SubscriberInfo) (x : SubscriberInfo) (xs : List SubscriberInfo)
      → Follows es xs
      → AllAfter priority x.agent xs
      → Follows (es ++ x ∷ []) xs
  Follows-append es x [] h k = tt
  Follows-append es x (y ∷ ys) h k =
      (AllBefore-append y.agent es x h.0 k.0, Follows-append es x ys h.1 k.1)

  insert_all_append :
      (xs es : List SubscriberInfo)
      → IsSorted priority xs
      → Follows es xs
      → insert_all priority xs es ≡ es ++ xs
  unfolding insert_all insert_to_map
  insert_all_append [] es s h = sym (append-nil es)
  insert_all_append (x ∷ xs) es s h =
      let last : (find_in_map priority x.agent es == length es) ≡ true =
        ground (arith, find_end x.agent es h.0) in
      rw last (
        rw (insert_at_end x es h.0) (
          insert_all_append xs (es ++ x ∷ []) s.1 (Follows-append es x xs h.1 s.0)
          ∙ append_assoc es (x ∷ []) xs))

  Follows-nil : (xs : List SubscriberInfo) → Follows [] xs
  Follows-nil [] = tt
  Follows-nil (x ∷ xs) = (tt, Follows-nil xs)

  -- The move into a map keeps the list.
  pub insert_all_sorted :
      (xs : List SubscriberInfo) → IsSorted priority xs → insert_all priority xs [] ≡ xs
  insert_all_sorted xs s = insert_all_append xs [] s (Follows-nil xs)

  pub insert_to_map_new :
      (x : SubscriberInfo) (es : List SubscriberInfo)
      → IsSorted priority es
      → lookup x.agent es ≡ none
      → insert_to_map priority x es ≡ insert_at (lower_bound priority x.agent es) x es
  unfolding insert_to_map
  insert_to_map_new x es s h =
      let last : (find_in_map priority x.agent es == length es) ≡ true = ground (
        arith,
        find_in_map-find_in_vector priority x.agent es,
        find-none priority x.agent es s h,
      ) in
      rw last refl

  pub find-elements :
      (a : ℕ) (c : Container) → find priority a c ≡ find_in_vector priority a (elements c)
  unfolding find
  find-elements a c = by_storage c.storage c.in_vector c.in_map
    where
      by_storage :
          (t : StorageType) (v m : List SubscriberInfo)
          → find priority a (contained t v m)
            ≡ find_in_vector priority a (elements (contained t v m))
      by_storage vector v m = refl
      by_storage map v m = find_in_map-find_in_vector priority a m
