-- ===== src/Mboxes/Container/Changes.antt =====
-- Changes at a position of a list of subscribers, and what they do to each agent's entry.
use android_vendor_sobjectiz.Common.{
  ℕ, zero, suc, ◌≤◌, ◌≡◌, refl, ap, inl, inr, arith, ◌==◌, if◌then◌else◌, true, Bool-cases, none,
  some, List, [], ◌∷◌, length,
}
use android_vendor_sobjectiz.Mboxes.Subscriber.{SubscriberInfo}
use android_vendor_sobjectiz.Mboxes.Container.{
  is_before, insert_at, erase_at, modify_at, lower_bound, find_in_vector,
}
use android_vendor_sobjectiz.Mboxes.Container.Order.{
  AllAfter, IsSorted, AllAfter-before, AllAfter-lookup, before-lookup, find-cons, lookup, changed,
  modify_at_end, erase_at_end, length-modify_at,
}

module _ (priority : ℕ → ℕ) where
  AllAfter-modify_at :
      (a : ℕ) (p : ℕ) (f : SubscriberInfo → SubscriberInfo) (es : List SubscriberInfo)
      → ((i : SubscriberInfo) → (f i).agent ≡ i.agent)
      → AllAfter priority a es
      → AllAfter priority a (modify_at p f es)
  unfolding modify_at
  AllAfter-modify_at a p f [] k s = tt
  AllAfter-modify_at a zero f (i ∷ es) k s = (rw (k i) s.0, s.1)
  AllAfter-modify_at a (suc p) f (i ∷ es) k s = (s.0, AllAfter-modify_at a p f es k s.1)

  pub IsSorted-modify_at :
      (p : ℕ) (f : SubscriberInfo → SubscriberInfo) (es : List SubscriberInfo)
      → ((i : SubscriberInfo) → (f i).agent ≡ i.agent)
      → IsSorted priority es
      → IsSorted priority (modify_at p f es)
  unfolding modify_at
  IsSorted-modify_at p f [] k s = tt
  IsSorted-modify_at zero f (i ∷ es) k s = (rw (k i) s.0, s.1)
  IsSorted-modify_at (suc p) f (i ∷ es) k s =
      (AllAfter-modify_at i.agent p f es k s.0, IsSorted-modify_at p f es k s.1)

  pub lookup-modify_at :
      (a b : ℕ) (f : SubscriberInfo → SubscriberInfo) (es : List SubscriberInfo)
      → ((i : SubscriberInfo) → (f i).agent ≡ i.agent)
      → IsSorted priority es
      → lookup b (modify_at (find_in_vector priority a es) f es)
        ≡ (if a == b then changed f (lookup a es) else lookup b es)
  unfolding modify_at
  lookup-modify_at a b f [] k s = ground arith
  lookup-modify_at a b f (i ∷ es) k s =
      rw (find-cons priority a i es) (elim (Bool-cases (is_before priority i.agent a)) [
        | inl e ↦ ground (arith, lookup-modify_at a b f es k s.1, e)
        | inr e ↦ elim (Bool-cases (i.agent == a)) [
          | inl e' ↦ ground (arith, e, e', k i)
          | inr e' ↦
              let gone = before-lookup priority a i es s (ground arith) in
              ground (arith, e, e', modify_at_end f es)
        ]
      ])

  -- A change of entries leaves the search alone.
  pub find-modify_at :
      (a p : ℕ) (f : SubscriberInfo → SubscriberInfo) (es : List SubscriberInfo)
      → ((i : SubscriberInfo) → (f i).agent ≡ i.agent)
      → find_in_vector priority a (modify_at p f es) ≡ find_in_vector priority a es
  unfolding modify_at
  find-modify_at a p f [] same = refl
  find-modify_at a zero f (i ∷ es) same =
      ground (arith, find-cons priority a (f i) es, find-cons priority a i es, same i)
  find-modify_at a (suc p) f (i ∷ es) same = ground (
    arith,
    find-cons priority a i (modify_at p f es),
    find-cons priority a i es,
    find-modify_at a p f es same,
    length-modify_at p f es,
  )

  AllAfter-erase_at :
      (a p : ℕ) (es : List SubscriberInfo)
      → AllAfter priority a es
      → AllAfter priority a (erase_at p es)
  unfolding erase_at
  AllAfter-erase_at a p [] s = tt
  AllAfter-erase_at a zero (i ∷ es) s = s.1
  AllAfter-erase_at a (suc p) (i ∷ es) s = (s.0, AllAfter-erase_at a p es s.1)

  pub IsSorted-erase_at :
      (p : ℕ) (es : List SubscriberInfo) → IsSorted priority es → IsSorted priority (erase_at p es)
  unfolding erase_at
  IsSorted-erase_at p [] s = tt
  IsSorted-erase_at zero (i ∷ es) s = s.1
  IsSorted-erase_at (suc p) (i ∷ es) s =
      (AllAfter-erase_at i.agent p es s.0, IsSorted-erase_at p es s.1)

  -- The entry at the position found is that of the agent: after its removal it has none.
  pub lookup-erase_at :
      (a b : ℕ) (es : List SubscriberInfo)
      → IsSorted priority es
      → lookup b (erase_at (find_in_vector priority a es) es)
        ≡ (if a == b then none else lookup b es)
  unfolding erase_at
  lookup-erase_at a b [] s = ground arith
  lookup-erase_at a b (i ∷ es) s =
      rw (find-cons priority a i es) (elim (Bool-cases (is_before priority i.agent a)) [
        | inl e ↦ ground (arith, lookup-erase_at a b es s.1, e)
        | inr e ↦ elim (Bool-cases (i.agent == a)) [
          | inl e' ↦ ground (arith, e, e', AllAfter-lookup priority i.agent es s.0)
          | inr e' ↦
              let gone = before-lookup priority a i es s (ground arith) in
              ground (arith, e, e', erase_at_end es)
        ]
      ])

  pub lookup-insert_at :
      (b : ℕ) (x : SubscriberInfo) (es : List SubscriberInfo)
      → lookup x.agent es ≡ none
      → lookup b (insert_at (lower_bound priority x.agent es) x es)
        ≡ (if x.agent == b then some x else lookup b es)
  unfolding insert_at lower_bound
  lookup-insert_at b x [] h = refl
  lookup-insert_at b x (i ∷ es) h = elim (Bool-cases (is_before priority i.agent x.agent)) [
    | inl e ↦ ground (arith, lookup-insert_at b x es, e)
    | inr e ↦ ground (arith, e)
  ]

  AllAfter-insert_at :
      (a p : ℕ) (x : SubscriberInfo) (es : List SubscriberInfo)
      → is_before priority a x.agent ≡ true
      → AllAfter priority a es
      → AllAfter priority a (insert_at p x es)
  unfolding insert_at
  AllAfter-insert_at a zero x es h s = (h, s)
  AllAfter-insert_at a (suc p) x [] h s = (h, tt)
  AllAfter-insert_at a (suc p) x (i ∷ es) h s = (s.0, AllAfter-insert_at a p x es h s.1)

  pub IsSorted-insert_at :
      (x : SubscriberInfo) (es : List SubscriberInfo)
      → lookup x.agent es ≡ none
      → IsSorted priority es
      → IsSorted priority (insert_at (lower_bound priority x.agent es) x es)
  unfolding insert_at lower_bound
  IsSorted-insert_at x [] h s = (tt, tt)
  IsSorted-insert_at x (i ∷ es) h s = elim (Bool-cases (is_before priority i.agent x.agent)) [
    | inl e ↦ rw e (
        (
          AllAfter-insert_at i.agent (lower_bound priority x.agent es) x es e s.0,
          IsSorted-insert_at x es (ground (arith)) s.1,
        ))
    | inr e ↦
        let first : is_before priority x.agent i.agent ≡ true = ground arith in
        rw e ((first, AllAfter-before priority x.agent i.agent es first s.0), s)
  ]

pub length-insert_at :
    (p : ℕ) (x : SubscriberInfo) (es : List SubscriberInfo)
    → length (insert_at p x es) ≡ suc (length es)
unfolding insert_at
length-insert_at zero x es = refl
length-insert_at (suc p) x [] = refl
length-insert_at (suc p) x (i ∷ es) = ap suc (length-insert_at p x es)

pub length-erase_at : (p : ℕ) (es : List SubscriberInfo) → length (erase_at p es) ≤ length es
unfolding erase_at
length-erase_at p [] = omega arith
length-erase_at zero (i ∷ es) = omega arith
length-erase_at (suc p) (i ∷ es) = omega (arith, length-erase_at p es)
