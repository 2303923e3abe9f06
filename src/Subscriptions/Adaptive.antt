-- ===== src/Subscriptions/Adaptive.antt =====
-- so_5/rt/impl/subscr_storage_adaptive.cpp: the storage that keeps its subscriptions in a small or in
-- a large storage. Allocations do not fail, so a switch is never given up halfway.
use android_vendor_sobjectiz.Common.{
  ℕ, leb, if◌then◌else◌, Bool, true, false, not, ◌&&◌, Option, List, length,
}
use android_vendor_sobjectiz.Subscriptions.Data.{Info, MboxCall, Reply}
use android_vendor_sobjectiz.Subscriptions.Storage.{StorageOps}
pub mod Switches
pub mod Changes
pub mod Laws

-- `use_large` tells which storage `m_current_storage` points to.
pub record AdaptiveStorage (A B : Type 0) : Type 0 where
  pub threshold : ℕ
  pub small_storage : A
  pub large_storage : B
  pub use_large : Bool

pub make : {A B : Type 0} → ℕ → A → B → AdaptiveStorage A B
make threshold a b = record {
  threshold = threshold;
  small_storage = a;
  large_storage = b;
  use_large = false;
}

module _ {A B : Type 0} (small : StorageOps A) (large : StorageOps B) where
  -- A call of the current storage that changes it.
  abbrev in_small : {R : Type 0} → AdaptiveStorage A B → A × R → AdaptiveStorage A B × R
  in_small s r = (record s { small_storage = r.0 }, r.1)

  abbrev in_large : {R : Type 0} → AdaptiveStorage A B → B × R → AdaptiveStorage A B × R
  in_large s r = (record s { large_storage = r.0 }, r.1)

  -- The first part of create_event_subscription.
  pub try_switch_to_larger_storage : AdaptiveStorage A B → AdaptiveStorage A B
  try_switch_to_larger_storage s =
      if not s.use_large && leb s.threshold (small.query_subscriptions_count s.small_storage)
      then record s {
        large_storage = large.setup_content (small.query_content s.small_storage) s.large_storage;
        small_storage = small.drop_content s.small_storage;
        use_large = true;
      }
      else s

  pub try_switch_to_smaller_storage : AdaptiveStorage A B → AdaptiveStorage A B
  try_switch_to_smaller_storage s =
      if s.use_large && leb (large.query_subscriptions_count s.large_storage) s.threshold
      then record s {
        small_storage = small.setup_content (large.query_content s.large_storage) s.small_storage;
        large_storage = large.drop_content s.large_storage;
        use_large = false;
      }
      else s

  create_in_current : Info → ℕ → Bool → AdaptiveStorage A B → AdaptiveStorage A B × Reply
  create_in_current i limit throws s =
      if s.use_large
      then in_large s (large.create_event_subscription i limit throws s.large_storage)
      else in_small s (small.create_event_subscription i limit throws s.small_storage)

  pub create_event_subscription :
      Info → ℕ → Bool → AdaptiveStorage A B → AdaptiveStorage A B × Reply
  unfolding create_in_current try_switch_to_larger_storage
  create_event_subscription i limit throws s =
      create_in_current i limit throws (try_switch_to_larger_storage s)

  pub drop_in_current : ℕ → ℕ → ℕ → AdaptiveStorage A B → AdaptiveStorage A B × List MboxCall
  drop_in_current m t k s =
      if s.use_large
      then in_large s (large.drop_subscription m t k s.large_storage)
      else in_small s (small.drop_subscription m t k s.small_storage)

  drop_subscription : ℕ → ℕ → ℕ → AdaptiveStorage A B → AdaptiveStorage A B × List MboxCall
  unfolding drop_in_current try_switch_to_smaller_storage
  drop_subscription m t k s =
      let r = drop_in_current m t k s in (try_switch_to_smaller_storage r.0, r.1)

  pub drop_all_in_current : ℕ → ℕ → AdaptiveStorage A B → AdaptiveStorage A B × List MboxCall
  drop_all_in_current m t s =
      if s.use_large
      then in_large s (large.drop_subscription_for_all_states m t s.large_storage)
      else in_small s (small.drop_subscription_for_all_states m t s.small_storage)

  drop_subscription_for_all_states :
      ℕ → ℕ → AdaptiveStorage A B → AdaptiveStorage A B × List MboxCall
  unfolding drop_all_in_current try_switch_to_smaller_storage
  drop_subscription_for_all_states m t s =
      let r = drop_all_in_current m t s in (try_switch_to_smaller_storage r.0, r.1)

  find_handler : ℕ → ℕ → ℕ → AdaptiveStorage A B → Option ℕ
  find_handler m t k s =
      if s.use_large
      then large.find_handler m t k s.large_storage
      else small.find_handler m t k s.small_storage

  drop_content : AdaptiveStorage A B → AdaptiveStorage A B
  drop_content s =
      if s.use_large
      then record s { large_storage = large.drop_content s.large_storage; use_large = false }
      else record s { small_storage = small.drop_content s.small_storage; use_large = false }

  pub query_content : AdaptiveStorage A B → List Info
  query_content s =
      if s.use_large
      then large.query_content s.large_storage
      else small.query_content s.small_storage

  setup_content : List Info → AdaptiveStorage A B → AdaptiveStorage A B
  setup_content info s =
      if leb (length info) s.threshold
      then record s { small_storage = small.setup_content info s.small_storage; use_large = false }
      else record s { large_storage = large.setup_content info s.large_storage; use_large = true }

  query_subscriptions_count : AdaptiveStorage A B → ℕ
  query_subscriptions_count s =
      if s.use_large
      then large.query_subscriptions_count s.large_storage
      else small.query_subscriptions_count s.small_storage

  unfoldable pub ops : StorageOps (AdaptiveStorage A B)
  unfolding create_event_subscription drop_subscription drop_subscription_for_all_states
      find_handler drop_content query_content setup_content query_subscriptions_count
  ops = record {
    create_event_subscription = create_event_subscription;
    drop_subscription = drop_subscription;
    drop_subscription_for_all_states = drop_subscription_for_all_states;
    find_handler = find_handler;
    drop_content = drop_content;
    query_content = query_content;
    setup_content = setup_content;
    query_subscriptions_count = query_subscriptions_count;
  }
