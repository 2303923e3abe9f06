-- ===== src/Subscriptions/Adaptive/Laws.antt =====
-- The adaptive storage keeps the promises of a subscription storage if its two storages do.
use android_vendor_sobjectiz.Common.{
  ℕ, ◌≡◌, leb, if◌then◌else◌, Bool, true, false, List, [], length, arith, refl,
}
use android_vendor_sobjectiz.Subscriptions.Data.{Info, same_key, is_same_mbox_msg}
use android_vendor_sobjectiz.Subscriptions.Content.{
  lookup, Same, IsUnique, drop_calls, drop_all_calls, Same-length,
}
use android_vendor_sobjectiz.Subscriptions.Storage.{StorageOps, StorageLaws}
use android_vendor_sobjectiz.Subscriptions.Adaptive.{
  AdaptiveStorage, make, query_content, drop_in_current, drop_subscription, drop_all_in_current,
  drop_subscription_for_all_states, find_handler, drop_content, setup_content,
  query_subscriptions_count, ops,
}
use android_vendor_sobjectiz.Subscriptions.Adaptive.Switches.{IsValid}
use android_vendor_sobjectiz.Subscriptions.Adaptive.Changes.{
  Drops, create_lem, switched, drop_in_current_lem, drop_all_in_current_lem,
}

module _ {A B : Type 0} {small : StorageOps A} {large : StorageOps B} (sl : StorageLaws small)
    (ll : StorageLaws large) where
  drop_lem :
      (m t k : ℕ) (s : AdaptiveStorage A B)
      → IsValid sl ll s
      → Drops sl ll
          (same_key m t k)
          (drop_calls m t k (query_content small large s))
          s
          (drop_subscription small large m t k s)
  unfolding drop_subscription
  drop_lem m t k s v =
      switched sl ll _ _ s (drop_in_current small large m t k s)
        (drop_in_current_lem sl ll m t k s.threshold s.small_storage s.large_storage s.use_large v)

  drop_all_lem :
      (m t : ℕ) (s : AdaptiveStorage A B)
      → IsValid sl ll s
      → Drops sl ll
          (is_same_mbox_msg m t)
          (drop_all_calls m t (query_content small large s))
          s
          (drop_subscription_for_all_states small large m t s)
  unfolding drop_subscription_for_all_states
  drop_all_lem m t s v =
      switched sl ll _ _ s (drop_all_in_current small large m t s) (
        drop_all_in_current_lem sl ll m t s.threshold s.small_storage s.large_storage s.use_large v)

  module _ (n : ℕ) (x : A) (y : B) where
    abbrev at : Bool → AdaptiveStorage A B
    at u = record { threshold = n; small_storage = x; large_storage = y; use_large = u }

    unique : (u : Bool) → IsValid sl ll (at u) → IsUnique (query_content small large (at u))
    unfolding query_content
    unique true v = ll.unique y v.large_valid
    unique false v = sl.unique x v.small_valid

    count_lem :
        (u : Bool)
        → IsValid sl ll (at u)
        → query_subscriptions_count small large (at u) ≡ length (query_content small large (at u))
    unfolding query_content query_subscriptions_count
    count_lem true v = ll.count_lem y v.large_valid
    count_lem false v = sl.count_lem x v.small_valid

    find_lem :
        (m t k : ℕ) (u : Bool)
        → IsValid sl ll (at u)
        → find_handler small large m t k (at u) ≡ lookup m t k (query_content small large (at u))
    unfolding query_content find_handler
    find_lem m t k true v = ll.find_lem m t k y v.large_valid
    find_lem m t k false v = sl.find_lem m t k x v.small_valid

    drop_content_lem :
        (u : Bool)
        → IsValid sl ll (at u)
        → IsValid sl ll (drop_content small large (at u))
          × (query_content small large (drop_content small large (at u)) ≡ [])
    unfolding query_content drop_content
    drop_content_lem true v =
        let (vy, e) = ll.drop_content_lem y v.large_valid in
        (
          record {
            small_valid = v.small_valid;
            large_valid = vy;
            placed = (e, ground (arith, v.placed.0));
          },
          v.placed.0,
        )
    drop_content_lem false v =
        let (vx, e) = sl.drop_content_lem x v.small_valid in
        (
          record {
            small_valid = vx;
            large_valid = v.large_valid;
            placed = (v.placed.0, ground (arith, e));
          },
          e,
        )

    both_empty :
        (u : Bool)
        → IsValid sl ll (at u)
        → query_content small large (at u) ≡ []
        → (small.query_content x ≡ []) × (large.query_content y ≡ [])
    unfolding query_content
    both_empty true v e = (v.placed.0, e)
    both_empty false v e = (e, v.placed.0)

    setup_lem :
        (xs : List Info) (u : Bool)
        → IsValid sl ll (at u)
        → IsUnique xs
        → query_content small large (at u) ≡ []
        → IsValid sl ll (setup_content small large xs (at u))
          × Same (query_content small large (setup_content small large xs (at u))) xs
    unfolding query_content setup_content
    setup_lem xs u v uniq e = decided (leb (length xs) n) refl
      where
        decided :
            (c : Bool)
            → leb (length xs) n ≡ c
            → IsValid sl ll (
                if c
                then record {
                  threshold = n;
                  small_storage = small.setup_content xs x;
                  large_storage = y;
                  use_large = false;
                }
                else record {
                  threshold = n;
                  small_storage = x;
                  large_storage = large.setup_content xs y;
                  use_large = true;
                })
              × Same
                  (query_content small large (
                    if c
                    then record {
                      threshold = n;
                      small_storage = small.setup_content xs x;
                      large_storage = y;
                      use_large = false;
                    }
                    else record {
                      threshold = n;
                      small_storage = x;
                      large_storage = large.setup_content xs y;
                      use_large = true;
                    }))
                  xs
        decided true le =
            let (vx, same) = sl.setup_lem xs x v.small_valid uniq (both_empty u v e).0 in
            (
              record {
                small_valid = vx;
                large_valid = v.large_valid;
                placed = ((both_empty u v e).1, ground (arith, le, Same-length _ _ same));
              },
              same,
            )
        decided false le =
            let (vy, same) = ll.setup_lem xs y v.large_valid uniq (both_empty u v e).1 in
            (
              record {
                small_valid = v.small_valid;
                large_valid = vy;
                placed = ((both_empty u v e).0, ground (arith, le, Same-length _ _ same));
              },
              same,
            )

  pub laws : StorageLaws (ops small large)
  unfolding ops
  laws = record {
    IsValid = IsValid sl ll;
    unique = λ s v. unique s.threshold s.small_storage s.large_storage s.use_large v;
    count_lem = λ s v. count_lem s.threshold s.small_storage s.large_storage s.use_large v;
    find_lem =
        λ m t k s v. find_lem s.threshold s.small_storage s.large_storage m t k s.use_large v;
    create_lem = λ i l b s v. create_lem sl ll i l b s v;
    drop_lem = λ m t k s v. drop_lem m t k s v;
    drop_all_lem = λ m t s v. drop_all_lem m t s v;
    drop_content_lem =
        λ s v. drop_content_lem s.threshold s.small_storage s.large_storage s.use_large v;
    setup_lem = λ xs s v uniq e.
        setup_lem s.threshold s.small_storage s.large_storage xs s.use_large v uniq e;
  }

  -- A new adaptive storage over two empty storages is valid and empty.
  pub make-IsValid :
      (n : ℕ) (x : A) (y : B)
      → sl.IsValid x
      → ll.IsValid y
      → small.query_content x ≡ []
      → large.query_content y ≡ []
      → laws.IsValid (make n x y) × ((ops small large).query_content (make n x y) ≡ [])
  unfolding make query_content laws ops
  make-IsValid n x y vx vy ex ey =
      (record { small_valid = vx; large_valid = vy; placed = (ey, ground (arith, ex)) }, ex)
