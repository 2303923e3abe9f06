-- ===== src/Mboxes/Local/Refinement.antt =====
-- A local mbox holds for each agent and type what its calls have asked for.
use android_vendor_sobjectiz.Common.{
  ℕ, ◌≡◌, refl, ap, arith, inl, inr, Bool-cases, ◌==◌, ◌&&◌, if◌then◌else◌, Option, none, some,
  List, [], ◌∷◌,
}
use android_vendor_sobjectiz.Mboxes.Subscriber.{
  SubscriberInfo, is_empty, subscription_info, filter_info, set_limit, drop_limit, set_filter,
  drop_filter,
}
use android_vendor_sobjectiz.Mboxes.Local.{
  MessagesTable, subscribe_event_handler, unsubscribe_event_handlers, set_delivery_filter,
  drop_delivery_filter,
}
use android_vendor_sobjectiz.Mboxes.Local.Interests.{
  Interest, Interests, uninterested, info_of, Request, subscribe, unsubscribe, filter_by, unfilter,
  request, requests, at, noted, noted_all, IsAllowed, AreAllowed,
}
use android_vendor_sobjectiz.Mboxes.Local.Entries.{Holds, entry, modified_or, modified_and_kept}
use android_vendor_sobjectiz.Mboxes.Local.Tables.{
  entry-insert, entry-remove, insert-Holds, remove-Holds,
}

-- The entry that an agent's wishes leave in a mbox.
abbrev pub entry_of : ℕ → Interest → Option SubscriberInfo
entry_of a n = info_of a n.subscription n.filter

-- What the calls do to an entry is what they do to the interest.
on_subscribe :
    (a : ℕ) (l : Option ℕ) (s : Option (Option ℕ)) (f : Option ℕ)
    → (f ≡ none → s ≡ none)
    → modified_or (subscription_info a l) (set_limit l) (info_of a s f) ≡ info_of a (some l) f
unfolding subscription_info set_limit
on_subscribe a l none none h = refl
on_subscribe a l none (some g) h = refl
on_subscribe a l (some k) none h = let e = h refl in cc
on_subscribe a l (some k) (some g) h = refl

on_unsubscribe :
    (a : ℕ) (s : Option (Option ℕ)) (f : Option ℕ)
    → modified_and_kept drop_limit (info_of a s f) ≡ info_of a none f
unfolding drop_limit is_empty
on_unsubscribe a none none = refl
on_unsubscribe a none (some g) = refl
on_unsubscribe a (some k) none = refl
on_unsubscribe a (some k) (some g) = refl

on_filter_by :
    (a g : ℕ) (s : Option (Option ℕ)) (f : Option ℕ)
    → (s ≡ none → f ≡ none)
    → modified_or (filter_info a g) (set_filter g) (info_of a s f) ≡ info_of a s (some g)
unfolding filter_info set_filter
on_filter_by a g none none h = refl
on_filter_by a g none (some k) h = let e = h refl in cc
on_filter_by a g (some l) none h = refl
on_filter_by a g (some l) (some k) h = refl

on_unfilter :
    (a : ℕ) (s : Option (Option ℕ)) (f : Option ℕ)
    → modified_and_kept drop_filter (info_of a s f) ≡ info_of a s none
unfolding drop_filter is_empty
on_unfilter a none none = refl
on_unfilter a none (some g) = refl
on_unfilter a (some l) none = refl
on_unfilter a (some l) (some g) = refl

module _ (priority : ℕ → ℕ) where
  -- The entries are those of the interests, in sound containers that are not empty.
  pub record Refines (b : MessagesTable) (s : Interests) : Type 0 where
    pub entries_are : (t a : ℕ) → entry b t a ≡ entry_of a (s t a)
    pub kept : (t : ℕ) → Holds priority (b t)

  pub start-Refines : Refines (λ t. none) uninterested
  start-Refines = record { entries_are = λ t a. refl; kept = λ t. tt }

  -- A change of one entry against a change of one interest.
  at-entry :
      (t u a d : ℕ) (n : Interest) (x o : Option SubscriberInfo) (b : MessagesTable) (s : Interests)
      → o ≡ (if t == u && a == d then x else entry b u d)
      → x ≡ entry_of a n
      → entry b u d ≡ entry_of d (s u d)
      → o ≡ entry_of d (at t a n s u d)
  at-entry t u a d n x o b s e f g = elim (Bool-cases (a == d)) [
    | inr other ↦ ground (arith, e, g, other)
    | inl same ↦ elim (Bool-cases (t == u)) [
      | inr elsewhere ↦ ground (arith, e, g, elsewhere)
      | inl here ↦
          let is_d : a ≡ d = ground arith in
          let f' : x ≡ entry_of d n = rw f (ap (λ k. entry_of k n) is_d) in
          ground (arith, e, here, same, f')
    ]
  ]

  subscribe-Refines :
      (t : ℕ) (l : Option ℕ) (a : ℕ) (b : MessagesTable) (s : Interests)
      → Refines b s
      → IsAllowed (subscribe t l a) s
      → Refines (subscribe_event_handler priority t l a b) (noted (subscribe t l a) s)
  unfolding subscribe_event_handler subscription_info set_limit
  subscribe-Refines t l a b s k h = record {
    entries_are = λ u d.
        at-entry t u a d (record (s t a) { subscription = some l })
          (modified_or (subscription_info a l) (set_limit l) (entry b t a))
          (entry (subscribe_event_handler priority t l a b) u d) b s
          (entry-insert priority t u a d (subscription_info a l) (set_limit l) b refl (λ i. refl)
            (k.kept t))
          (rw (k.entries_are t a) (on_subscribe a l (s t a).subscription (s t a).filter h))
          (k.entries_are u d);
    kept = λ u.
        insert-Holds priority t u a (subscription_info a l) (set_limit l) b refl (λ i. refl) k.kept;
  }

  unsubscribe-Refines :
      (t a : ℕ) (b : MessagesTable) (s : Interests)
      → Refines b s
      → Refines (unsubscribe_event_handlers priority t a b) (noted (unsubscribe t a) s)
  unfolding unsubscribe_event_handlers drop_limit
  unsubscribe-Refines t a b s k = record {
    entries_are = λ u d.
        at-entry t u a d (record (s t a) { subscription = none })
          (modified_and_kept drop_limit (entry b t a))
          (entry (unsubscribe_event_handlers priority t a b) u d) b s
          (entry-remove priority t u a d drop_limit b (λ i. refl) (k.kept t))
          (rw (k.entries_are t a) (on_unsubscribe a (s t a).subscription (s t a).filter))
          (k.entries_are u d);
    kept = λ u. remove-Holds priority t u a drop_limit b (λ i. refl) k.kept;
  }

  filter_by-Refines :
      (t f a : ℕ) (b : MessagesTable) (s : Interests)
      → Refines b s
      → IsAllowed (filter_by t f a) s
      → Refines (set_delivery_filter priority t f a b) (noted (filter_by t f a) s)
  unfolding set_delivery_filter filter_info set_filter
  filter_by-Refines t f a b s k h = record {
    entries_are = λ u d.
        at-entry t u a d (record (s t a) { filter = some f })
          (modified_or (filter_info a f) (set_filter f) (entry b t a))
          (entry (set_delivery_filter priority t f a b) u d) b s
          (entry-insert priority t u a d (filter_info a f) (set_filter f) b refl (λ i. refl)
            (k.kept t))
          (rw (k.entries_are t a) (on_filter_by a f (s t a).subscription (s t a).filter h))
          (k.entries_are u d);
    kept =
        λ u. insert-Holds priority t u a (filter_info a f) (set_filter f) b refl (λ i. refl) k.kept;
  }

  unfilter-Refines :
      (t a : ℕ) (b : MessagesTable) (s : Interests)
      → Refines b s
      → Refines (drop_delivery_filter priority t a b) (noted (unfilter t a) s)
  unfolding drop_delivery_filter drop_filter
  unfilter-Refines t a b s k = record {
    entries_are = λ u d.
        at-entry t u a d (record (s t a) { filter = none })
          (modified_and_kept drop_filter (entry b t a))
          (entry (drop_delivery_filter priority t a b) u d) b s
          (entry-remove priority t u a d drop_filter b (λ i. refl) (k.kept t))
          (rw (k.entries_are t a) (on_unfilter a (s t a).subscription (s t a).filter))
          (k.entries_are u d);
    kept = λ u. remove-Holds priority t u a drop_filter b (λ i. refl) k.kept;
  }

  request-Refines :
      (r : Request) (b : MessagesTable) (s : Interests)
      → Refines b s
      → IsAllowed r s
      → Refines (request priority r b) (noted r s)
  request-Refines (subscribe t l a) b s k h = subscribe-Refines t l a b s k h
  request-Refines (unsubscribe t a) b s k h = unsubscribe-Refines t a b s k
  request-Refines (filter_by t f a) b s k h = filter_by-Refines t f a b s k h
  request-Refines (unfilter t a) b s k h = unfilter-Refines t a b s k

  requests-from :
      (rs : List Request) (b : MessagesTable) (s : Interests)
      → Refines b s
      → AreAllowed rs s
      → Refines (requests priority rs b) (noted_all rs s)
  requests-from [] b s k h = k
  requests-from (r ∷ rs) b s k h =
      requests-from rs (request priority r b) (noted r s) (request-Refines r b s k h.0) h.1

  -- After any sequence of calls of a local mbox that is empty at the start, whatever the priorities of
  -- the agents, in which no agent subscribes to a type for which it is subscribed and has no filter,
  -- and none sets a filter for a type for which it has a filter and is not subscribed: the entry of an
  -- agent for a type has the limit of its last subscription and its last filter, each while it is not
  -- dropped, with the state of these two, and there is no entry without both; the entries of a type
  -- stand in the order of priorities, then of addresses, in a vector of at most 32 or in a map of at
  -- least 16, and a type without entries is not in the table.
  pub requests-Refines :
      (rs : List Request)
      → AreAllowed rs uninterested
      → Refines (requests priority rs (λ t. none)) (noted_all rs uninterested)
  requests-Refines rs h = requests-from rs (λ t. none) uninterested start-Refines h
