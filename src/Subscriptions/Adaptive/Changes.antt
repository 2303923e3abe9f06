-- ===== src/Subscriptions/Adaptive/Changes.antt =====
-- The adaptive storage: what subscribing and the two ways of dropping do to its contents.
use android_vendor_sobjectiz.Common.{
  ℕ, suc, ◌≡◌, ◌≤◌, Bool, true, false, List, [], ◌∷◌, length, arith, refl, ◌∙◌,
}
use android_vendor_sobjectiz.Subscriptions.Data.{Info, MboxCall, Reply, same_key, is_same_mbox_msg}
use android_vendor_sobjectiz.Subscriptions.Content.{
  without, Same, create_content, create_reply, drop_calls, drop_all_calls, Same-length,
  Same-create_content, Same-create_reply,
}
use android_vendor_sobjectiz.Subscriptions.Storage.{StorageOps, StorageLaws}
use android_vendor_sobjectiz.Subscriptions.Adaptive.{
  AdaptiveStorage, query_content, try_switch_to_larger_storage, try_switch_to_smaller_storage,
  create_in_current, create_event_subscription, drop_in_current, drop_all_in_current,
}
use android_vendor_sobjectiz.Subscriptions.Adaptive.Switches.{
  IsValid, IsLoose, HasRoom, larger_lem, smaller_lem,
}

more-create_content :
    (i : Info) (b : Bool) (xs : List Info) → length xs ≤ length (create_content i b xs)
more-create_content i b xs = ground arith

one-create_content :
    (i : Info) (b : Bool) (xs : List Info) → length (create_content i b xs) ≤ suc (length xs)
one-create_content i b xs = ground arith

fewer-without : (Q : Info → Bool) (xs : List Info) → length (without Q xs) ≤ length xs
fewer-without Q [] = omega arith
fewer-without Q (x ∷ xs) = ground (arith, fewer-without Q xs)

module _ {A B : Type 0} {small : StorageOps A} {large : StorageOps B} (sl : StorageLaws small)
    (ll : StorageLaws large) where
  abbrev pub Storage : Type 0
  Storage = AdaptiveStorage A B

  abbrev pub all : Storage → List Info
  all s = query_content small large s

  abbrev pub Creates : Info → ℕ → Bool → Storage → Storage × Reply → Type 0
  Creates i l b s r =
      IsValid sl ll r.0
      × (r.1 ≡ create_reply i l b (all s))
      × Same (all r.0) (create_content i b (all s))

  create_in_current_lem :
      (i : Info) (l : ℕ) (b : Bool) (s : Storage)
      → IsValid sl ll s
      → HasRoom sl ll s
      → Creates i l b s (create_in_current small large i l b s)
  unfolding create_in_current query_content
  create_in_current_lem i l b s v room =
      by s.threshold s.small_storage s.large_storage s.use_large v room
    where
      by :
          (n : ℕ) (x : A) (y : B) (u : Bool)
          → IsValid sl ll
              (record { threshold = n; small_storage = x; large_storage = y; use_large = u })
          → HasRoom sl ll
              (record { threshold = n; small_storage = x; large_storage = y; use_large = u })
          → Creates i l b
              (record { threshold = n; small_storage = x; large_storage = y; use_large = u })
              (create_in_current small large i l b
                (record { threshold = n; small_storage = x; large_storage = y; use_large = u }))
      by n x y true v room =
          let (vy, reply, same) = ll.create_lem i l b y v.large_valid in
          (
            record {
              small_valid = v.small_valid;
              large_valid = vy;
              placed = (
                v.placed.0,
                omega (
                  arith,
                  v.placed.1,
                  Same-length _ _ same,
                  more-create_content i b (large.query_content y),
                ),
              );
            },
            reply,
            same,
          )
      by n x y false v room =
          let (vx, reply, same) = sl.create_lem i l b x v.small_valid in
          (
            record {
              small_valid = vx;
              large_valid = v.large_valid;
              placed = (
                v.placed.0,
                omega (
                  arith,
                  room refl,
                  Same-length _ _ same,
                  one-create_content i b (small.query_content x),
                ),
              );
            },
            reply,
            same,
          )

  pub create_lem :
      (i : Info) (l : ℕ) (b : Bool) (s : Storage)
      → IsValid sl ll s
      → Creates i l b s (create_event_subscription small large i l b s)
  unfolding create_event_subscription
  create_lem i l b s v =
      let (v', room, same) = larger_lem sl ll s v in
      let (v'', reply, same') =
        create_in_current_lem i l b (try_switch_to_larger_storage small large s) v' room in
      (
        v'',
        reply ∙ Same-create_reply i l b _ _ same,
        λ P. same' P ∙ Same-create_content i b _ _ same P,
      )

  -- Removing what `Q` tells, with the calls made, before the switch and after it.
  abbrev pub Loosens : (Info → Bool) → List MboxCall → Storage → Storage × List MboxCall → Type 0
  Loosens Q calls s r = IsLoose sl ll r.0 × (r.1 ≡ calls) × Same (all r.0) (without Q (all s))

  abbrev pub Drops : (Info → Bool) → List MboxCall → Storage → Storage × List MboxCall → Type 0
  Drops Q calls s r = IsValid sl ll r.0 × (r.1 ≡ calls) × Same (all r.0) (without Q (all s))

  pub switched :
      (Q : Info → Bool) (calls : List MboxCall) (s : Storage) (r : Storage × List MboxCall)
      → Loosens Q calls s r
      → Drops Q calls s (try_switch_to_smaller_storage small large r.0, r.1)
  switched Q calls s r (v, e, same) =
      let (v', same') = smaller_lem sl ll r.0 v in (v', e, λ P. same' P ∙ same P)

  pub drop_in_current_lem :
      (m t k : ℕ) (n : ℕ) (x : A) (y : B) (u : Bool)
      → IsValid sl ll
          (record { threshold = n; small_storage = x; large_storage = y; use_large = u })
      → Loosens
          (same_key m t k)
          (drop_calls m t k
            (all (record { threshold = n; small_storage = x; large_storage = y; use_large = u })))
          (record { threshold = n; small_storage = x; large_storage = y; use_large = u })
          (drop_in_current small large m t k
            (record { threshold = n; small_storage = x; large_storage = y; use_large = u }))
  unfolding drop_in_current query_content
  drop_in_current_lem m t k n x y true v =
      let (vy, reply, same) = ll.drop_lem m t k y v.large_valid in
      (
        record {
          small_valid = v.small_valid;
          large_valid = vy;
          placed = (v.placed.0, omega arith);
        },
        reply,
        same,
      )
  drop_in_current_lem m t k n x y false v =
      let (vx, reply, same) = sl.drop_lem m t k x v.small_valid in
      (
        record {
          small_valid = vx;
          large_valid = v.large_valid;
          placed = (
            v.placed.0,
            omega (
              arith,
              v.placed.1,
              Same-length _ _ same,
              fewer-without (same_key m t k) (small.query_content x),
            ),
          );
        },
        reply,
        same,
      )

  pub drop_all_in_current_lem :
      (m t : ℕ) (n : ℕ) (x : A) (y : B) (u : Bool)
      → IsValid sl ll
          (record { threshold = n; small_storage = x; large_storage = y; use_large = u })
      → Loosens
          (is_same_mbox_msg m t)
          (drop_all_calls m t
            (all (record { threshold = n; small_storage = x; large_storage = y; use_large = u })))
          (record { threshold = n; small_storage = x; large_storage = y; use_large = u })
          (drop_all_in_current small large m t
            (record { threshold = n; small_storage = x; large_storage = y; use_large = u }))
  unfolding drop_all_in_current query_content
  drop_all_in_current_lem m t n x y true v =
      let (vy, reply, same) = ll.drop_all_lem m t y v.large_valid in
      (
        record {
          small_valid = v.small_valid;
          large_valid = vy;
          placed = (v.placed.0, omega arith);
        },
        reply,
        same,
      )
  drop_all_in_current_lem m t n x y false v =
      let (vx, reply, same) = sl.drop_all_lem m t x v.small_valid in
      (
        record {
          small_valid = vx;
          large_valid = v.large_valid;
          placed = (
            v.placed.0,
            omega (
              arith,
              v.placed.1,
              Same-length _ _ same,
              fewer-without (is_same_mbox_msg m t) (small.query_content x),
            ),
          );
        },
        reply,
        same,
      )
