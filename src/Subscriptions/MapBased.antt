-- ===== src/Subscriptions/MapBased.antt =====
-- so_5/rt/impl/subscr_storage_map_based.cpp: the storage over a std::map, which is the list of its
-- items in the order of their keys. The key of an item is read off the item; a null state is 0.
use android_vendor_sobjectiz.Common.{
  ℕ, ltb, ◌==◌, if◌then◌else◌, Bool, true, false, not, ◌&&◌, ◌||◌, Option, none, some, List, [],
  ◌∷◌, length,
}
use android_vendor_sobjectiz.Subscriptions.Data.{
  Info, MboxCall, subscribe_event_handler, unsubscribe_event_handlers, evt_handler_already_provided,
  mbox_exception, Reply, same_key, is_same_mbox_msg,
}
use android_vendor_sobjectiz.Subscriptions.Storage.{StorageOps}
pub mod Order
pub mod Neighbours
pub mod Laws
pub mod Destructor

abbrev pub MapStorage : Type 0
MapStorage = List Info

-- `operator<` of key_t, on the key of an item and a key.
abbrev pub key_lt : Info → ℕ → ℕ → ℕ → Bool
key_lt i m t s =
    if ltb i.mbox m
    then true
    else if i.mbox == m
    then (if ltb i.msg_type t then true else if i.msg_type == t then ltb i.state s else false)
    else false

-- std::map::find, true where it is not `end`; std::map::emplace; erase at the position of a key.
pub find : ℕ → ℕ → ℕ → List Info → Option Info
find m t s [] = none
find m t s (i ∷ is_) = let rest = find m t s is_ in if same_key m t s i then some i else rest

pub emplace : Info → List Info → List Info
emplace i [] = i ∷ []
emplace i (j ∷ js) =
    let rest = emplace i js in
    if key_lt i j.mbox j.msg_type j.state
    then i ∷ j ∷ js
    else if key_lt j i.mbox i.msg_type i.state
    then j ∷ rest
    else j ∷ js

pub erase : ℕ → ℕ → ℕ → List Info → List Info
erase m t s [] = []
erase m t s (i ∷ is_) = if same_key m t s i then is_ else i ∷ erase m t s is_

abbrev pub is_pair : ℕ → ℕ → Option Info → Bool
is_pair m t none = false
is_pair m t (some i) = is_same_mbox_msg m t i

abbrev pub first : List Info → Option Info
first [] = none
first (i ∷ is_) = some i

-- The test of both neighbours of the item with the key; `prev` is the item before the list.
pub is_known_mbox_msg_pair : ℕ → ℕ → ℕ → Option Info → List Info → Bool
is_known_mbox_msg_pair m t s prev [] = false
is_known_mbox_msg_pair m t s prev (i ∷ is_) =
    let rest = is_known_mbox_msg_pair m t s (some i) is_ in
    if same_key m t s i then is_pair m t prev || is_pair m t (first is_) else rest

create_event_subscription : Info → ℕ → Bool → MapStorage → MapStorage × Reply
unfolding find emplace erase is_known_mbox_msg_pair
create_event_subscription i limit throws es =
    let events = emplace i es in
    elim (find i.mbox i.msg_type i.state es) [
      | some existed ↦ (es, record { calls = []; thrown = some evt_handler_already_provided })
      | none ↦
          if is_known_mbox_msg_pair i.mbox i.msg_type i.state none events
          then (events, record { calls = []; thrown = none })
          else (
            if throws then erase i.mbox i.msg_type i.state events else events,
            record {
              calls = subscribe_event_handler i.mbox i.msg_type limit ∷ [];
              thrown = if throws then some mbox_exception else none;
            },
          )
    ]

drop_subscription : ℕ → ℕ → ℕ → MapStorage → MapStorage × List MboxCall
unfolding find erase is_known_mbox_msg_pair
drop_subscription m t s es = elim (find m t s es) [
  | none ↦ (es, [])
  | some existed ↦ (
    erase m t s es,
    if is_known_mbox_msg_pair m t s none es then [] else unsubscribe_event_handlers m t ∷ [],
  )
]

-- The loop that erases from a position while the pair is the same.
pub erase_while : ℕ → ℕ → List Info → List Info
erase_while m t [] = []
erase_while m t (i ∷ is_) =
    let rest = erase_while m t is_ in if is_same_mbox_msg m t i then rest else i ∷ is_

-- The same from `lower_bound` on, which is the first item that is not below the key.
pub erase_from_lower_bound : ℕ → ℕ → List Info → List Info
unfolding erase_while
erase_from_lower_bound m t [] = []
erase_from_lower_bound m t (i ∷ is_) =
    let rest = erase_from_lower_bound m t is_ in
    if key_lt i m t 0 then i ∷ rest else erase_while m t (i ∷ is_)

pub lower_bound : ℕ → ℕ → List Info → Option Info
lower_bound m t [] = none
lower_bound m t (i ∷ is_) =
    let rest = lower_bound m t is_ in if key_lt i m t 0 then rest else some i

drop_subscription_for_all_states : ℕ → ℕ → MapStorage → MapStorage × List MboxCall
unfolding erase_from_lower_bound lower_bound
drop_subscription_for_all_states m t es =
    if is_pair m t (lower_bound m t es)
    then (erase_from_lower_bound m t es, unsubscribe_event_handlers m t ∷ [])
    else (es, [])

find_handler : ℕ → ℕ → ℕ → MapStorage → Option ℕ
unfolding find
find_handler m t s es = elim (find m t s es) [ none ↦ none | some i ↦ some i.handler ]

-- The items go into a new map one after the other.
pub insert_all : List Info → MapStorage → MapStorage
unfolding emplace
insert_all [] events = events
insert_all (i ∷ is_) events = insert_all is_ (emplace i events)

-- The calls of the destructor: an unsubscription with the last item of each pair.
pub destroy_all_subscriptions : MapStorage → List MboxCall
destroy_all_subscriptions [] = []
destroy_all_subscriptions (i ∷ is_) =
    let rest = destroy_all_subscriptions is_ in
    if is_pair i.mbox i.msg_type (first is_)
    then rest
    else unsubscribe_event_handlers i.mbox i.msg_type ∷ rest

unfoldable pub ops : StorageOps MapStorage
unfolding create_event_subscription drop_subscription drop_subscription_for_all_states find_handler
    insert_all
ops = record {
  create_event_subscription = create_event_subscription;
  drop_subscription = drop_subscription;
  drop_subscription_for_all_states = drop_subscription_for_all_states;
  find_handler = find_handler;
  drop_content = λ es. [];
  query_content = λ es. es;
  setup_content = λ info es. insert_all info [];
  query_subscriptions_count = λ es. length es;
}
