-- ===== src/Subscriptions/Storage.antt =====
-- so_5/rt/impl/h/subscription_storage_iface.hpp: subscription_storage_t as a record of operations,
-- and what each of them promises, as laws over the contents of the storage. Whether the mbox throws
-- from subscribe_event_handler is an argument of `create_event_subscription`.
use android_vendor_sobjectiz.Common.{ℕ, ◌≡◌, Bool, Option, List, [], length}
use android_vendor_sobjectiz.Subscriptions.Data.{Info, MboxCall, Reply, same_key, is_same_mbox_msg}
use android_vendor_sobjectiz.Subscriptions.Content.{
  without, lookup, Same, IsUnique, create_content, create_reply, drop_calls, drop_all_calls,
}

pub record StorageOps (S : Type 0) : Type 0 where
  pub create_event_subscription : Info → ℕ → Bool → S → S × Reply
  pub drop_subscription : ℕ → ℕ → ℕ → S → S × List MboxCall
  pub drop_subscription_for_all_states : ℕ → ℕ → S → S × List MboxCall
  pub find_handler : ℕ → ℕ → ℕ → S → Option ℕ
  pub drop_content : S → S
  pub query_content : S → List Info
  pub setup_content : List Info → S → S
  pub query_subscriptions_count : S → ℕ

pub record StorageLaws {S : Type 0} (ops : StorageOps S) : Type 1 where
  pub IsValid : S → Type 0
  pub unique : (s : S) → IsValid s → IsUnique (ops.query_content s)
  pub count_lem :
      (s : S) → IsValid s → ops.query_subscriptions_count s ≡ length (ops.query_content s)
  pub find_lem :
      (m t k : ℕ) (s : S)
      → IsValid s
      → ops.find_handler m t k s ≡ lookup m t k (ops.query_content s)
  pub create_lem :
      (i : Info) (l : ℕ) (b : Bool) (s : S)
      → IsValid s
      → IsValid (ops.create_event_subscription i l b s).0
        × ((ops.create_event_subscription i l b s).1 ≡ create_reply i l b (ops.query_content s))
        × Same
            (ops.query_content (ops.create_event_subscription i l b s).0)
            (create_content i b (ops.query_content s))
  pub drop_lem :
      (m t k : ℕ) (s : S)
      → IsValid s
      → IsValid (ops.drop_subscription m t k s).0
        × ((ops.drop_subscription m t k s).1 ≡ drop_calls m t k (ops.query_content s))
        × Same
            (ops.query_content (ops.drop_subscription m t k s).0)
            (without (same_key m t k) (ops.query_content s))
  pub drop_all_lem :
      (m t : ℕ) (s : S)
      → IsValid s
      → IsValid (ops.drop_subscription_for_all_states m t s).0
        × ((ops.drop_subscription_for_all_states m t s).1
            ≡ drop_all_calls m t (ops.query_content s))
        × Same
            (ops.query_content (ops.drop_subscription_for_all_states m t s).0)
            (without (is_same_mbox_msg m t) (ops.query_content s))
  pub drop_content_lem :
      (s : S)
      → IsValid s
      → IsValid (ops.drop_content s) × (ops.query_content (ops.drop_content s) ≡ [])
  pub setup_lem :
      (xs : List Info) (s : S)
      → IsValid s
      → IsUnique xs
      → ops.query_content s ≡ []
      → IsValid (ops.setup_content xs s) × Same (ops.query_content (ops.setup_content xs s)) xs
