-- ===== src/Mboxes/Local.antt =====
-- so_5/rt/impl/h/local_mbox.hpp, local_mbox_template: the table of subscribers by the type of message.
-- A type is a number, and std::map of types is a function, none where there is no entry.
use android_vendor_sobjectiz.Common.{
  ℕ, ◌==◌, if◌then◌else◌, Bool, Option, none, some, List, [], ◌∷◌, length, is_nil,
}
use android_vendor_sobjectiz.Mboxes.Subscriber.{
  SubscriberInfo, subscription_info, filter_info, is_empty, set_limit, drop_limit, set_filter,
  drop_filter,
}
use android_vendor_sobjectiz.Mboxes.Container.{
  Container, empty_container, elements, element, insert, find, erase, modify,
}
pub mod Interests
pub mod Entries
pub mod Tables
pub mod Refinement
pub mod Filters

abbrev pub MessagesTable : Type 0
MessagesTable = ℕ → Option Container

abbrev pub put : ℕ → Option Container → MessagesTable → MessagesTable
put t c b u = if t == u then c else b u

-- An entry that is empty after its change is erased.
unfoldable pub remove_if_empty : ℕ → Container → Container
remove_if_empty pos c = elim (element (elements c) pos) [
  | none ↦ c
  | some i ↦ if is_empty i.state then erase pos c else c
]

-- A type without subscribers leaves the table.
unfoldable pub keep_if_any : ℕ → Container → MessagesTable → MessagesTable
keep_if_any t c b = put t (if is_nil (elements c) then none else some c) b

module _ (priority : ℕ → ℕ) where
  unfoldable pub insert_or_modify :
      ℕ → SubscriberInfo → (SubscriberInfo → SubscriberInfo) → Container → Container
  insert_or_modify a made change c =
      let pos = find priority a c in
      if pos == length (elements c) then insert priority made c else modify pos change c

  unfoldable pub insert_or_modify_subscriber :
      ℕ → ℕ → SubscriberInfo → (SubscriberInfo → SubscriberInfo) → MessagesTable → MessagesTable
  insert_or_modify_subscriber t a made change b = elim (b t) [
    | none ↦ put t (some (insert priority made empty_container)) b
    | some c ↦ put t (some (insert_or_modify a made change c)) b
  ]

  unfoldable pub modify_and_remove : ℕ → (SubscriberInfo → SubscriberInfo) → Container → Container
  modify_and_remove a change c =
      let pos = find priority a c in
      if pos == length (elements c) then c else remove_if_empty pos (modify pos change c)

  unfoldable pub modify_and_remove_subscriber_if_needed :
      ℕ → ℕ → (SubscriberInfo → SubscriberInfo) → MessagesTable → MessagesTable
  modify_and_remove_subscriber_if_needed t a change b = elim (b t) [
    | none ↦ b
    | some c ↦ keep_if_any t (modify_and_remove a change c) b
  ]

  unfoldable pub subscribe_event_handler : ℕ → Option ℕ → ℕ → MessagesTable → MessagesTable
  subscribe_event_handler t l a b =
      insert_or_modify_subscriber t a (subscription_info a l) (set_limit l) b

  unfoldable pub unsubscribe_event_handlers : ℕ → ℕ → MessagesTable → MessagesTable
  unsubscribe_event_handlers t a b = modify_and_remove_subscriber_if_needed t a drop_limit b

  unfoldable pub set_delivery_filter : ℕ → ℕ → ℕ → MessagesTable → MessagesTable
  set_delivery_filter t f a b = insert_or_modify_subscriber t a (filter_info a f) (set_filter f) b

  unfoldable pub drop_delivery_filter : ℕ → ℕ → MessagesTable → MessagesTable
  drop_delivery_filter t a b = modify_and_remove_subscriber_if_needed t a drop_filter b
