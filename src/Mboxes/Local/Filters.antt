-- ===== src/Mboxes/Local/Filters.antt =====
-- A delivery filter that is replaced while there is no subscription, as delivery_filter_storage_t of
-- so_5/rt/impl/h/delivery_filter_storage.hpp does it.
use android_vendor_sobjectiz.Common.{ℕ, ◌≡◌, refl, arith, Bool, true, none, some, List}
use android_vendor_sobjectiz.Mboxes.Subscriber.{
  SubscriberInfo, is_empty, filter_info, set_filter, drop_filter, delivery_possibility,
  must_be_delivered, only_filter, only_subscriptions, subscriptions_and_filter,
}
use android_vendor_sobjectiz.Mboxes.Local.{set_delivery_filter, drop_delivery_filter, MessagesTable}
use android_vendor_sobjectiz.Mboxes.Local.Interests.{
  uninterested, Request, requests, noted_all, AreAllowed,
}
use android_vendor_sobjectiz.Mboxes.Local.Entries.{Holds, entry}
use android_vendor_sobjectiz.Mboxes.Local.Tables.{entry-insert, entry-remove, insert-Holds}
use android_vendor_sobjectiz.Mboxes.Local.Refinement.{requests-Refines}

module _ (priority : ℕ → ℕ) where
  module _ (t a f g : ℕ) (b : MessagesTable) (kept : (u : ℕ) → Holds priority (b u)) where
    replaced :
        entry b t a
          ≡ some (record { agent = a; limit = none; filter = some f; state = only_filter })
        → entry (set_delivery_filter priority t g a b) t a
          ≡ some (record {
            agent = a;
            limit = none;
            filter = some g;
            state = subscriptions_and_filter;
          })
    unfolding set_delivery_filter filter_info set_filter
    replaced e = ground (
      arith,
      entry-insert priority t t a a (filter_info a g) (set_filter g) b refl (λ i. refl) (kept t),
      e,
    )

    dropped :
        entry b t a
          ≡ some (record { agent = a; limit = none; filter = some f; state = only_filter })
        → entry (drop_delivery_filter priority t a (set_delivery_filter priority t g a b)) t a
          ≡ some (record { agent = a; limit = none; filter = none; state = only_subscriptions })
    unfolding set_delivery_filter drop_delivery_filter filter_info set_filter drop_filter is_empty
    dropped e = ground (
      arith,
      entry-remove priority t t a a drop_filter (set_delivery_filter priority t g a b) (λ i. refl)
          (insert-Holds priority t t a (filter_info a g) (set_filter g) b refl (λ i. refl) kept),
      replaced e,
    )

  -- After any sequence of calls of a local mbox in which no agent subscribes to a type for which it is
  -- subscribed and has no filter, and none sets a filter for a type for which it has a filter and is not
  -- subscribed, for an agent that has a delivery filter `f` for a type and no subscription: once it sets
  -- another filter `g` the mbox delivers to it a message that `g` lets pass, and once that filter is
  -- dropped the entry of the agent stays, and the mbox delivers to it every message of the type.
  pub refilter-delivers :
      (rs : List Request) (t a f g : ℕ) (check : ℕ → Bool)
      → AreAllowed rs uninterested
      → noted_all rs uninterested t a ≡ record { subscription = none; filter = some f }
      → check g ≡ true
      → let b = requests priority rs (λ u. none) in
        let filtered = set_delivery_filter priority t g a b in
        let unfiltered = drop_delivery_filter priority t a filtered in
        ((i : SubscriberInfo) × (entry filtered t a ≡ some i)
          × (delivery_possibility check i ≡ some must_be_delivered))
        × ((i : SubscriberInfo) × (entry unfiltered t a ≡ some i)
            × ((c : ℕ → Bool) → delivery_possibility c i ≡ some must_be_delivered))
  unfolding delivery_possibility
  refilter-delivers rs t a f g check h now pass =
      let b = requests priority rs (λ u. none) in
      let k = requests-Refines priority rs h in
      let before : entry b t a
          ≡ some (record { agent = a; limit = none; filter = some f; state = only_filter }) =
        rw (k.entries_are t a) (rw now refl) in
      (
        (
          record { agent = a; limit = none; filter = some g; state = subscriptions_and_filter },
          replaced t a f g b k.kept before,
          rw pass refl,
        ),
        (
          record { agent = a; limit = none; filter = none; state = only_subscriptions },
          dropped t a f g b k.kept before,
          λ c. refl,
        ),
      )
