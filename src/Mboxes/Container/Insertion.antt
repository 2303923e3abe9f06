-- ===== src/Mboxes/Container/Insertion.antt =====
-- An insertion into a container, and what keeps a container sound.
use android_vendor_sobjectiz.Common.{
  ℕ, ◌≡◌, refl, ap, inl, inr, arith, ◌==◌, true, false, Bool-cases, none, List, [], length, ◌∙◌,
}
use android_vendor_sobjectiz.Mboxes.Subscriber.{SubscriberInfo}
use android_vendor_sobjectiz.Mboxes.Container.{
  Container, StorageType, vector, map, elements, insert_at, lower_bound, insert_to_vector,
  insert_to_storage, insert, erase, modify, switch_storage_to_map, switch_to_map,
}
use android_vendor_sobjectiz.Mboxes.Container.Order.{lookup, IsSorted}
use android_vendor_sobjectiz.Mboxes.Container.Changes.{
  length-insert_at, IsSorted-insert_at, IsSorted-modify_at, IsSorted-erase_at,
}
use android_vendor_sobjectiz.Mboxes.Container.Laws.{
  IsSound, insert_all_sorted, insert_to_map_new, IsStored, contained, modify-IsStored,
  elements-modify, erase-Erases, elements-erase,
}

module _ (priority : ℕ → ℕ) where
  insert_map :
      (x : SubscriberInfo) (v m : List SubscriberInfo)
      → IsSorted priority m
      → lookup x.agent m ≡ none
      → insert_to_storage priority x (contained map v m)
        ≡ contained map v (insert_at (lower_bound priority x.agent m) x m)
  unfolding insert_to_storage
  insert_map x v m s new = ap (contained map v) (insert_to_map_new priority x m s new)

  switched :
      (v m : List SubscriberInfo)
      → IsSorted priority v
      → switch_storage_to_map priority (contained vector v m) ≡ contained map [] v
  unfolding switch_storage_to_map
  switched v m s = ap (contained map []) (insert_all_sorted priority v s)

  -- A full vector moves into a map first.
  insert_full :
      (x : SubscriberInfo) (v m : List SubscriberInfo)
      → IsSorted priority v
      → lookup x.agent v ≡ none
      → (length v == switch_to_map) ≡ true
      → insert priority x (contained vector v m)
        ≡ contained map [] (insert_at (lower_bound priority x.agent v) x v)
  unfolding insert
  insert_full x v m s new full =
      rw full (ap (insert_to_storage priority x) (switched v m s) ∙ insert_map x [] v s new)

  insert_room :
      (x : SubscriberInfo) (v m : List SubscriberInfo)
      → (length v == switch_to_map) ≡ false
      → insert priority x (contained vector v m)
        ≡ contained vector (insert_at (lower_bound priority x.agent v) x v) m
  unfolding insert insert_to_storage insert_to_vector
  insert_room x v m room = rw room refl

  -- What an insertion does to a container.
  record Inserts (x : SubscriberInfo) (c c' : Container) : Type 0 where
    pub same_list :
        elements c' ≡ insert_at (lower_bound priority x.agent (elements c)) x (elements c)
    pub fits : IsStored c'.storage c'.in_vector c'.in_map

  insert-Inserts :
      (x : SubscriberInfo) (t : StorageType) (v m : List SubscriberInfo)
      → IsSorted priority (elements (contained t v m))
      → IsStored t v m
      → lookup x.agent (elements (contained t v m)) ≡ none
      → Inserts x (contained t v m) (insert priority x (contained t v m))
  unfolding insert
  insert-Inserts x map v m s k new = rw (insert_map x v m s new) (record {
    same_list = refl;
    fits = (omega (arith, k.0, length-insert_at (lower_bound priority x.agent m) x m), k.1);
  })
  insert-Inserts x vector v m s k new = elim (Bool-cases (length v == switch_to_map)) [
    | inl full ↦ rw (insert_full x v m s new full) (record {
      same_list = refl;
      fits = (ground (arith, full, length-insert_at (lower_bound priority x.agent v) x v), refl);
    })
    | inr room ↦ rw (insert_room x v m room) (record {
      same_list = refl;
      fits =
          (ground (arith, room, k.0, length-insert_at (lower_bound priority x.agent v) x v), k.1);
    })
  ]

  -- An entry for an agent without one goes to its place in the list.
  pub elements-insert :
      (x : SubscriberInfo) (c : Container)
      → IsSound priority c
      → lookup x.agent (elements c) ≡ none
      → elements (insert priority x c)
        ≡ insert_at (lower_bound priority x.agent (elements c)) x (elements c)
  elements-insert x c k new =
      (insert-Inserts x c.storage c.in_vector c.in_map k.sorted k.stored new).same_list

  pub insert-IsSound :
      (x : SubscriberInfo) (c : Container)
      → IsSound priority c
      → lookup x.agent (elements c) ≡ none
      → IsSound priority (insert priority x c)
  insert-IsSound x c k new = record {
    sorted =
        rw (elements-insert x c k new) (IsSorted-insert_at priority x (elements c) new k.sorted);
    stored = (insert-Inserts x c.storage c.in_vector c.in_map k.sorted k.stored new).fits;
  }

  pub modify-IsSound :
      (p : ℕ) (f : SubscriberInfo → SubscriberInfo) (c : Container)
      → ((i : SubscriberInfo) → (f i).agent ≡ i.agent)
      → IsSound priority c
      → IsSound priority (modify p f c)
  modify-IsSound p f c same k = record {
    sorted =
        rw (elements-modify p f c) (IsSorted-modify_at priority p f (elements c) same k.sorted);
    stored = modify-IsStored p f c.storage c.in_vector c.in_map k.stored;
  }

  pub erase-IsSound : (p : ℕ) (c : Container) → IsSound priority c → IsSound priority (erase p c)
  erase-IsSound p c k = record {
    sorted = rw (elements-erase p c) (IsSorted-erase_at priority p (elements c) k.sorted);
    stored = (erase-Erases p c.storage c.in_vector c.in_map).fits k.stored;
  }
