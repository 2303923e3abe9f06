-- ===== src/Mboxes/Local/Tables.antt =====
-- What the changes of a local mbox do to the entries of agents and to its table.
use android_vendor_sobjectiz.Common.{
  ℕ, ◌≡◌, refl, arith, inl, inr, Bool-cases, ◌==◌, ◌&&◌, if◌then◌else◌, false, Option, none, some,
  List, [], ◌∷◌, is_nil,
}
use android_vendor_sobjectiz.Mboxes.Subscriber.{SubscriberInfo}
use android_vendor_sobjectiz.Mboxes.Container.{Container, empty_container, elements, insert}
use android_vendor_sobjectiz.Mboxes.Container.Order.{lookup}
use android_vendor_sobjectiz.Mboxes.Container.Changes.{lookup-insert_at}
use android_vendor_sobjectiz.Mboxes.Container.Laws.{IsSound}
use android_vendor_sobjectiz.Mboxes.Container.Insertion.{elements-insert, insert-IsSound}
use android_vendor_sobjectiz.Mboxes.Local.{
  MessagesTable, put, keep_if_any, insert_or_modify, insert_or_modify_subscriber, modify_and_remove,
  modify_and_remove_subscriber_if_needed,
}
use android_vendor_sobjectiz.Mboxes.Local.Entries.{
  Holds, empty-IsSound, lookup-insert_or_modify, lookup-modify_and_remove,
  modify_and_remove-IsSound, insert_or_modify-IsSound, entry, modified_or, modified_and_kept,
}

module _ (priority : ℕ → ℕ) where
  lookup-some :
      (a : ℕ) (es : List SubscriberInfo) (i : SubscriberInfo)
      → lookup a es ≡ some i
      → is_nil es ≡ false
  lookup-some a [] i h = cc
  lookup-some a (j ∷ es) i h = refl

  insert-empty :
      (b : ℕ) (made : SubscriberInfo)
      → lookup b (elements (insert priority made empty_container))
        ≡ (if made.agent == b then some made else none)
  insert-empty b made =
      rw (elements-insert priority made empty_container (empty-IsSound priority) refl)
        (lookup-insert_at priority b made [] refl)

  pub entry-insert :
      (t u a d : ℕ) (made : SubscriberInfo) (f : SubscriberInfo → SubscriberInfo)
      (b : MessagesTable)
      → made.agent ≡ a
      → ((i : SubscriberInfo) → (f i).agent ≡ i.agent)
      → Holds priority (b t)
      → entry (insert_or_modify_subscriber priority t a made f b) u d
        ≡ (if t == u && a == d then modified_or made f (entry b t a) else entry b u d)
  unfolding insert_or_modify_subscriber
  entry-insert t u a d made f b m same h = by_type (b t) refl h
    where
      by_type :
          (o : Option Container)
          → b t ≡ o
          → Holds priority o
          → entry (insert_or_modify_subscriber priority t a made f b) u d
            ≡ (if t == u && a == d then modified_or made f (entry b t a) else entry b u d)
      by_type none e h' =
          rw (e, insert_or_modify_subscriber) (ground (arith, insert-empty d made, m, e))
      by_type (some c) e h' =
          rw (e, insert_or_modify_subscriber)
            (ground (arith, lookup-insert_or_modify priority a d made f c m same h'.0, e))

  kept-entry :
      (t u d : ℕ) (c : Container) (b : MessagesTable)
      → entry (keep_if_any t c b) u d ≡ (if t == u then lookup d (elements c) else entry b u d)
  unfolding keep_if_any
  kept-entry t u d c b = by_list (elements c) refl
    where
      by_list :
          (es : List SubscriberInfo)
          → elements c ≡ es
          → entry (keep_if_any t c b) u d ≡ (if t == u then lookup d (elements c) else entry b u d)
      by_list [] e = rw e (ground arith)
      by_list (x ∷ es) e = ground (arith, e)

  -- A container that is put for a type is sound and not empty.
  Holds-put :
      (t u : ℕ) (o : Option Container) (b : MessagesTable)
      → Holds priority o
      → Holds priority (b u)
      → Holds priority (put t o b u)
  Holds-put t u o b h k = elim (Bool-cases (t == u)) [ inl e ↦ rw e h | inr e ↦ rw e k ]

  modified_or-some :
      (a : ℕ) (made : SubscriberInfo) (f : SubscriberInfo → SubscriberInfo)
      (o : Option SubscriberInfo) (es : List SubscriberInfo)
      → lookup a es ≡ modified_or made f o
      → is_nil es ≡ false
  modified_or-some a made f none es h = lookup-some a es made h
  modified_or-some a made f (some i) es h = lookup-some a es (f i) h

  made-Holds :
      (a : ℕ) (made : SubscriberInfo) (f : SubscriberInfo → SubscriberInfo) (c : Container)
      → made.agent ≡ a
      → ((i : SubscriberInfo) → (f i).agent ≡ i.agent)
      → IsSound priority c
      → Holds priority (some (insert_or_modify priority a made f c))
  made-Holds a made f c m same k = (
    insert_or_modify-IsSound priority a made f c m same k,
    modified_or-some a made f (lookup a (elements c))
        (elements (insert_or_modify priority a made f c))
        (ground (arith, lookup-insert_or_modify priority a a made f c m same k)),
  )

  kept-Holds :
      (t u : ℕ) (c : Container) (b : MessagesTable)
      → IsSound priority c
      → Holds priority (b u)
      → Holds priority (keep_if_any t c b u)
  unfolding keep_if_any
  kept-Holds t u c b k h = elim (Bool-cases (is_nil (elements c))) [
    | inl e ↦ rw e (Holds-put t u none b tt h)
    | inr e ↦ rw e (Holds-put t u (some c) b (k, e) h)
  ]

  pub insert-Holds :
      (t u a : ℕ) (made : SubscriberInfo) (f : SubscriberInfo → SubscriberInfo) (b : MessagesTable)
      → made.agent ≡ a
      → ((i : SubscriberInfo) → (f i).agent ≡ i.agent)
      → ((u : ℕ) → Holds priority (b u))
      → Holds priority (insert_or_modify_subscriber priority t a made f b u)
  unfolding insert_or_modify_subscriber
  insert-Holds t u a made f b m same h = by_type (b t) refl (h t)
    where
      by_type :
          (o : Option Container)
          → b t ≡ o
          → Holds priority o
          → Holds priority (insert_or_modify_subscriber priority t a made f b u)
      by_type none e h' =
          rw (e, insert_or_modify_subscriber)
            (Holds-put t u (some (insert priority made empty_container)) b
              (
                insert-IsSound priority made empty_container (empty-IsSound priority) refl,
                lookup-some made.agent (elements (insert priority made empty_container)) made
                    (ground (arith, insert-empty made.agent made)),
              )
              (h u))
      by_type (some c) e h' =
          rw (e, insert_or_modify_subscriber)
            (Holds-put t u (some (insert_or_modify priority a made f c)) b
              (made-Holds a made f c m same h'.0) (h u))

  pub entry-remove :
      (t u a d : ℕ) (f : SubscriberInfo → SubscriberInfo) (b : MessagesTable)
      → ((i : SubscriberInfo) → (f i).agent ≡ i.agent)
      → Holds priority (b t)
      → entry (modify_and_remove_subscriber_if_needed priority t a f b) u d
        ≡ (if t == u && a == d then modified_and_kept f (entry b t a) else entry b u d)
  unfolding modify_and_remove_subscriber_if_needed
  entry-remove t u a d f b same h = by_type (b t) refl h
    where
      by_type :
          (o : Option Container)
          → b t ≡ o
          → Holds priority o
          → entry (modify_and_remove_subscriber_if_needed priority t a f b) u d
            ≡ (if t == u && a == d then modified_and_kept f (entry b t a) else entry b u d)
      by_type none e h' = rw (e, modify_and_remove_subscriber_if_needed) (ground (arith, e))
      by_type (some c) e h' =
          rw (e, modify_and_remove_subscriber_if_needed)
            (ground (
              arith,
              kept-entry t u d (modify_and_remove priority a f c) b,
              lookup-modify_and_remove priority a d f c same h'.0,
              e,
            ))

  pub remove-Holds :
      (t u a : ℕ) (f : SubscriberInfo → SubscriberInfo) (b : MessagesTable)
      → ((i : SubscriberInfo) → (f i).agent ≡ i.agent)
      → ((u : ℕ) → Holds priority (b u))
      → Holds priority (modify_and_remove_subscriber_if_needed priority t a f b u)
  unfolding modify_and_remove_subscriber_if_needed
  remove-Holds t u a f b same h = by_type (b t) refl (h t)
    where
      by_type :
          (o : Option Container)
          → b t ≡ o
          → Holds priority o
          → Holds priority (modify_and_remove_subscriber_if_needed priority t a f b u)
      by_type none e h' = rw (e, modify_and_remove_subscriber_if_needed) (h u)
      by_type (some c) e h' =
          rw (e, modify_and_remove_subscriber_if_needed)
            (kept-Holds t u (modify_and_remove priority a f c) b
              (modify_and_remove-IsSound priority a f c same h'.0) (h u))
