-- ===== src/Mboxes/Local/Entries.antt =====
-- What the changes of a container of subscribers do to the entries of agents.
use android_vendor_sobjectiz.Common.{
  ℕ, ◌≡◌, refl, arith, inl, inr, Bool-cases, Option-cases, ◌==◌, ◌&&◌, if◌then◌else◌, true, false,
  Option, none, some, length, is_nil,
}
use android_vendor_sobjectiz.Mboxes.Subscriber.{SubscriberInfo, is_empty}
use android_vendor_sobjectiz.Mboxes.Container.{
  Container, empty_container, elements, element, find, modify, find_in_vector,
}
use android_vendor_sobjectiz.Mboxes.Container.Order.{
  element-find, lookup, changed, find-none, find-some,
}
use android_vendor_sobjectiz.Mboxes.Container.Changes.{
  find-modify_at, lookup-insert_at, lookup-modify_at, lookup-erase_at,
}
use android_vendor_sobjectiz.Mboxes.Container.Laws.{
  IsSound, find-elements, elements-modify, elements-erase,
}
use android_vendor_sobjectiz.Mboxes.Container.Insertion.{
  elements-insert, insert-IsSound, modify-IsSound, erase-IsSound,
}
use android_vendor_sobjectiz.Mboxes.Local.{
  MessagesTable, remove_if_empty, insert_or_modify, modify_and_remove,
}

abbrev pub entry_in : Option Container → ℕ → Option SubscriberInfo
entry_in none a = none
entry_in (some c) a = lookup a (elements c)

abbrev pub entry : MessagesTable → ℕ → ℕ → Option SubscriberInfo
entry b t a = entry_in (b t) a

abbrev pub modified_or :
    SubscriberInfo
    → (SubscriberInfo → SubscriberInfo)
    → Option SubscriberInfo
    → Option SubscriberInfo
modified_or made f none = some made
modified_or made f (some i) = some (f i)

abbrev pub modified_and_kept :
    (SubscriberInfo → SubscriberInfo) → Option SubscriberInfo → Option SubscriberInfo
modified_and_kept f none = none
modified_and_kept f (some i) = if is_empty (f i).state then none else some (f i)

module _ (priority : ℕ → ℕ) where
  -- What holds of the entry of a type.
  abbrev pub Holds : Option Container → Type 0
  Holds none = Unit
  Holds (some c) = IsSound priority c × (is_nil (elements c) ≡ false)

  pub empty-IsSound : IsSound priority empty_container
  empty-IsSound = record { sorted = tt; stored = (omega arith, refl) }

  pub lookup-insert_or_modify :
      (a b : ℕ) (made : SubscriberInfo) (f : SubscriberInfo → SubscriberInfo) (c : Container)
      → made.agent ≡ a
      → ((i : SubscriberInfo) → (f i).agent ≡ i.agent)
      → IsSound priority c
      → lookup b (elements (insert_or_modify priority a made f c))
        ≡ (if a == b then modified_or made f (lookup a (elements c)) else lookup b (elements c))
  unfolding insert_or_modify
  lookup-insert_or_modify a b made f c m same k = elim (Option-cases (lookup a (elements c))) [
    | inl new ↦
        let new' : lookup made.agent (elements c) ≡ none = rw m new in
        let end_ : (find priority a c == length (elements c)) ≡ true =
          ground
            (arith, find-elements priority a c, find-none priority a (elements c) k.sorted new) in
        rw end_ (
          rw (elements-insert priority made c k new')
            (rw (lookup-insert_at priority b made (elements c) new') (ground (arith, m, new))))
    | inr (i, old) ↦
        let there : (find priority a c == length (elements c)) ≡ false =
          ground
            (arith, find-elements priority a c, find-some priority a (elements c) i k.sorted old) in
        rw there (
          rw (elements-modify (find priority a c) f c) (
            rw (find-elements priority a c) (
              rw (lookup-modify_at priority a b f (elements c) same k.sorted)
                (ground (arith, old)))))
  ]

  lookup-remove_if_empty :
      (a b p : ℕ) (i : SubscriberInfo) (c : Container)
      → IsSound priority c
      → p ≡ find_in_vector priority a (elements c)
      → lookup a (elements c) ≡ some i
      → lookup b (elements (remove_if_empty p c))
        ≡ (if a == b && is_empty i.state then none else lookup b (elements c))
  unfolding remove_if_empty
  lookup-remove_if_empty a b p i c k e there =
      let here : element (elements c) p ≡ some i =
        rw e (rw (element-find priority a (elements c) k.sorted) there) in
      rw (here, remove_if_empty)
        (elim (Bool-cases (is_empty i.state)) [
          | inl e' ↦ rw e' (
              rw (elements-erase p c)
                (ground (arith, lookup-erase_at priority a b (elements c) k.sorted)))
          | inr e' ↦ rw e' (ground arith)
        ])

  remove_if_empty-IsSound :
      (p : ℕ) (c : Container) → IsSound priority c → IsSound priority (remove_if_empty p c)
  unfolding remove_if_empty
  remove_if_empty-IsSound p c k = elim (Option-cases (element (elements c) p)) [
    | inl e ↦ rw (e, remove_if_empty) k
    | inr (i, e) ↦
        rw (e, remove_if_empty)
          (elim (Bool-cases (is_empty i.state)) [
            | inl e' ↦ rw e' (erase-IsSound priority p c k)
            | inr e' ↦ rw e' k
          ])
  ]

  lookup-modify :
      (a b : ℕ) (f : SubscriberInfo → SubscriberInfo) (c : Container)
      → ((i : SubscriberInfo) → (f i).agent ≡ i.agent)
      → IsSound priority c
      → lookup b (elements (modify (find priority a c) f c))
        ≡ (if a == b then changed f (lookup a (elements c)) else lookup b (elements c))
  lookup-modify a b f c same k =
      rw (elements-modify (find priority a c) f c) (
        rw (find-elements priority a c)
          (lookup-modify_at priority a b f (elements c) same k.sorted))

  -- The position found stays that of the agent.
  find-modify :
      (a : ℕ) (f : SubscriberInfo → SubscriberInfo) (c : Container)
      → ((i : SubscriberInfo) → (f i).agent ≡ i.agent)
      → find priority a c ≡ find_in_vector priority a (elements (modify (find priority a c) f c))
  find-modify a f c same = rw (elements-modify (find priority a c) f c) (
      rw (find-modify_at priority a (find priority a c) f (elements c) same)
        (find-elements priority a c))

  pub lookup-modify_and_remove :
      (a b : ℕ) (f : SubscriberInfo → SubscriberInfo) (c : Container)
      → ((i : SubscriberInfo) → (f i).agent ≡ i.agent)
      → IsSound priority c
      → lookup b (elements (modify_and_remove priority a f c))
        ≡ (if a == b then modified_and_kept f (lookup a (elements c)) else lookup b (elements c))
  unfolding modify_and_remove
  lookup-modify_and_remove a b f c same k = elim (Option-cases (lookup a (elements c))) [
    | inl new ↦
        let end_ : (find priority a c == length (elements c)) ≡ true =
          ground
            (arith, find-elements priority a c, find-none priority a (elements c) k.sorted new) in
        rw end_ (ground (arith, new))
    | inr (i, old) ↦
        let there : (find priority a c == length (elements c)) ≡ false =
          ground
            (arith, find-elements priority a c, find-some priority a (elements c) i k.sorted old) in
        let m = modify (find priority a c) f c in
        let old' : lookup a (elements m) ≡ some (f i) =
          ground (arith, lookup-modify a a f c same k, old) in
        let gone : lookup b (elements (remove_if_empty (find priority a c) m))
            ≡ (if a == b && is_empty (f i).state then none else lookup b (elements m)) =
          lookup-remove_if_empty a b (find priority a c) (f i) m
            (modify-IsSound priority (find priority a c) f c same k) (find-modify a f c same)
            old' in
        rw there (ground (arith, gone, lookup-modify a b f c same k, old))
  ]

  pub modify_and_remove-IsSound :
      (a : ℕ) (f : SubscriberInfo → SubscriberInfo) (c : Container)
      → ((i : SubscriberInfo) → (f i).agent ≡ i.agent)
      → IsSound priority c
      → IsSound priority (modify_and_remove priority a f c)
  unfolding modify_and_remove
  modify_and_remove-IsSound a f c same k =
      elim (Bool-cases (find priority a c == length (elements c))) [
        | inl e ↦ rw e k
        | inr e ↦ rw e (
            remove_if_empty-IsSound (find priority a c) (modify (find priority a c) f c)
              (modify-IsSound priority (find priority a c) f c same k))
      ]

  pub insert_or_modify-IsSound :
      (a : ℕ) (made : SubscriberInfo) (f : SubscriberInfo → SubscriberInfo) (c : Container)
      → made.agent ≡ a
      → ((i : SubscriberInfo) → (f i).agent ≡ i.agent)
      → IsSound priority c
      → IsSound priority (insert_or_modify priority a made f c)
  unfolding insert_or_modify
  insert_or_modify-IsSound a made f c m same k = elim (Option-cases (lookup a (elements c))) [
    | inl new ↦
        let new' : lookup made.agent (elements c) ≡ none = rw m new in
        let end_ : (find priority a c == length (elements c)) ≡ true =
          ground
            (arith, find-elements priority a c, find-none priority a (elements c) k.sorted new) in
        rw end_ (insert-IsSound priority made c k new')
    | inr (i, old) ↦
        let there : (find priority a c == length (elements c)) ≡ false =
          ground
            (arith, find-elements priority a c, find-some priority a (elements c) i k.sorted old) in
        rw there (modify-IsSound priority (find priority a c) f c same k)
  ]
