-- ===== src/Subscriptions/Adaptive/Switches.antt =====
-- The adaptive storage: which storage holds the subscriptions, and that a switch keeps them.
use android_vendor_sobjectiz.Common.{
  ℕ, ◌≡◌, ◌≤◌, ◌<◌, leb, if◌then◌else◌, Bool, true, false, List, [], length, arith, refl,
}
use android_vendor_sobjectiz.Subscriptions.Data.{Info}
use android_vendor_sobjectiz.Subscriptions.Content.{Same, Same-length}
use android_vendor_sobjectiz.Subscriptions.Storage.{StorageOps, StorageLaws}
use android_vendor_sobjectiz.Subscriptions.Adaptive.{
  AdaptiveStorage, query_content, try_switch_to_larger_storage, try_switch_to_smaller_storage,
}

module _ {A B : Type 0} {small : StorageOps A} {large : StorageOps B}
    (small_laws : StorageLaws small) (large_laws : StorageLaws large) where
  -- The other storage is empty, and the current one is the right one for the number of subscriptions.
  -- At the threshold itself both can be in use.
  abbrev pub IsPlaced : Bool → ℕ → A → B → Type 0
  IsPlaced true n a b = (small.query_content a ≡ []) × (n ≤ length (large.query_content b))
  IsPlaced false n a b = (large.query_content b ≡ []) × (length (small.query_content a) ≤ n)

  pub record IsValid (s : AdaptiveStorage A B) : Type 0 where
    pub small_valid : small_laws.IsValid s.small_storage
    pub large_valid : large_laws.IsValid s.large_storage
    pub placed : IsPlaced s.use_large s.threshold s.small_storage s.large_storage

  -- After a change of the current storage, before the switch: the large one may hold too few.
  pub record IsLoose (s : AdaptiveStorage A B) : Type 0 where
    pub small_valid : small_laws.IsValid s.small_storage
    pub large_valid : large_laws.IsValid s.large_storage
    pub placed :
        IsPlaced s.use_large
          (if s.use_large then 0 else s.threshold)
          s.small_storage
          s.large_storage

  -- Room for one subscription more.
  abbrev pub HasRoom : AdaptiveStorage A B → Type 0
  HasRoom s = s.use_large ≡ false → length (small.query_content s.small_storage) < s.threshold

  abbrev pub content : AdaptiveStorage A B → List Info
  content s = query_content small large s

  abbrev pub Grows : AdaptiveStorage A B → AdaptiveStorage A B → Type 0
  Grows s s' = IsValid s' × HasRoom s' × Same (content s') (content s)

  abbrev pub Shrinks : AdaptiveStorage A B → AdaptiveStorage A B → Type 0
  Shrinks s s' = IsValid s' × Same (content s') (content s)

  pub larger_lem :
      (s : AdaptiveStorage A B) → IsValid s → Grows s (try_switch_to_larger_storage small large s)
  unfolding try_switch_to_larger_storage query_content
  larger_lem s v = by s.threshold s.small_storage s.large_storage s.use_large v
    where
      by :
          (n : ℕ) (a : A) (b : B) (u : Bool)
          → IsValid (record { threshold = n; small_storage = a; large_storage = b; use_large = u })
          → Grows
              (record { threshold = n; small_storage = a; large_storage = b; use_large = u })
              (try_switch_to_larger_storage small large
                (record { threshold = n; small_storage = a; large_storage = b; use_large = u }))
      by n a b true v = (v, λ e. absurd cc, λ P. refl)
      by n a b false v = decided (leb n (small.query_subscriptions_count a)) refl
        where
          decided :
              (c : Bool)
              → leb n (small.query_subscriptions_count a) ≡ c
              → Grows
                  (record {
                    threshold = n;
                    small_storage = a;
                    large_storage = b;
                    use_large = false;
                  })
                  (if c
                    then record {
                      threshold = n;
                      small_storage = small.drop_content a;
                      large_storage = large.setup_content (small.query_content a) b;
                      use_large = true;
                    }
                    else record {
                      threshold = n;
                      small_storage = a;
                      large_storage = b;
                      use_large = false;
                    })
          decided true e =
              let (va, none_left) = small_laws.drop_content_lem a v.small_valid in
              let (vb, same) =
                large_laws.setup_lem (small.query_content a) b v.large_valid
                  (small_laws.unique a v.small_valid) v.placed.0 in
              (
                record {
                  small_valid = va;
                  large_valid = vb;
                  placed = (
                    none_left,
                    ground (arith, e, small_laws.count_lem a v.small_valid, Same-length _ _ same),
                  );
                },
                λ e'. absurd cc,
                same,
              )
          decided false e =
              (v, λ e'. ground (arith, e, small_laws.count_lem a v.small_valid), λ P. refl)

  pub smaller_lem :
      (s : AdaptiveStorage A B)
      → IsLoose s
      → Shrinks s (try_switch_to_smaller_storage small large s)
  unfolding try_switch_to_smaller_storage query_content
  smaller_lem s v = by s.threshold s.small_storage s.large_storage s.use_large v
    where
      by :
          (n : ℕ) (a : A) (b : B) (u : Bool)
          → IsLoose (record { threshold = n; small_storage = a; large_storage = b; use_large = u })
          → Shrinks
              (record { threshold = n; small_storage = a; large_storage = b; use_large = u })
              (try_switch_to_smaller_storage small large
                (record { threshold = n; small_storage = a; large_storage = b; use_large = u }))
      by n a b false v = (
        record { small_valid = v.small_valid; large_valid = v.large_valid; placed = v.placed },
        λ P. refl,
      )
      by n a b true v = decided (leb (large.query_subscriptions_count b) n) refl
        where
          decided :
              (c : Bool)
              → leb (large.query_subscriptions_count b) n ≡ c
              → Shrinks
                  (record { threshold = n; small_storage = a; large_storage = b; use_large = true })
                  (if c
                    then record {
                      threshold = n;
                      small_storage = small.setup_content (large.query_content b) a;
                      large_storage = large.drop_content b;
                      use_large = false;
                    }
                    else record {
                      threshold = n;
                      small_storage = a;
                      large_storage = b;
                      use_large = true;
                    })
          decided true e =
              let (vb, none_left) = large_laws.drop_content_lem b v.large_valid in
              let (va, same) =
                small_laws.setup_lem (large.query_content b) a v.small_valid
                  (large_laws.unique b v.large_valid) v.placed.0 in
              (
                record {
                  small_valid = va;
                  large_valid = vb;
                  placed = (
                    none_left,
                    ground (arith, e, large_laws.count_lem b v.large_valid, Same-length _ _ same),
                  );
                },
                same,
              )
          decided false e = (
            record {
              small_valid = v.small_valid;
              large_valid = v.large_valid;
              placed = (v.placed.0, ground (arith, e, large_laws.count_lem b v.large_valid));
            },
            λ P. refl,
          )
