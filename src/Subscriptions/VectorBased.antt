-- ===== src/Subscriptions/VectorBased.antt =====
-- so_5/rt/impl/subscr_storage_vector_based.cpp: the storage over a vector, which is a list. Mboxes
-- are compared by their ids, which are the numbers that stand for them, but in the destructor by the
-- addresses of the objects.
use android_vendor_sobjectiz.Common.{
  ℕ, ltb, ◌||◌, if◌then◌else◌, Bool, true, false, Option, none, some, List, [], ◌∷◌, ◌++◌, length,
  not, ◌==◌, ◌&&◌,
}
use android_vendor_sobjectiz.Subscriptions.Data.{
  Info, MboxCall, subscribe_event_handler, unsubscribe_event_handlers, evt_handler_already_provided,
  mbox_exception, Reply, same_key, is_same_mbox_msg,
}
use android_vendor_sobjectiz.Subscriptions.Storage.{StorageOps}
pub mod Laws
pub mod Destructor

abbrev pub VectorStorage : Type 0
VectorStorage = List Info

-- std::find_if: the first element, none for `end`.
find_if : (Info → Bool) → List Info → Option Info
find_if P [] = none
find_if P (i ∷ is_) = if P i then some i else find_if P is_

abbrev is_end : Option Info → Bool
is_end none = true
is_end (some i) = false

-- `find` of a key, and std::vector's erase at the position found.
find : ℕ → ℕ → ℕ → List Info → Option Info
unfolding find_if
find m t s es = find_if (same_key m t s) es

erase : ℕ → ℕ → ℕ → List Info → List Info
erase m t s [] = []
erase m t s (i ∷ is_) = if same_key m t s i then is_ else i ∷ erase m t s is_

-- std::remove_if with the erase of the tail.
remove_if : (Info → Bool) → List Info → List Info
remove_if P [] = []
remove_if P (i ∷ is_) = let rest = remove_if P is_ in if P i then rest else i ∷ rest

pop_back : List Info → List Info
pop_back [] = []
pop_back (i ∷ []) = []
pop_back (i ∷ j ∷ is_) = i ∷ pop_back (j ∷ is_)

create_event_subscription : Info → ℕ → Bool → VectorStorage → VectorStorage × Reply
unfolding find find_if pop_back
create_event_subscription i limit throws es =
    if not (is_end (find i.mbox i.msg_type i.state es))
    then (es, record { calls = []; thrown = some evt_handler_already_provided })
    else let events = es ++ i ∷ [] in
      if is_end (find_if (is_same_mbox_msg i.mbox i.msg_type) es)
      then (
        if throws then pop_back events else events,
        record {
          calls = subscribe_event_handler i.mbox i.msg_type limit ∷ [];
          thrown = if throws then some mbox_exception else none;
        },
      )
      else (events, record { calls = []; thrown = none })

drop_subscription : ℕ → ℕ → ℕ → VectorStorage → VectorStorage × List MboxCall
unfolding find find_if erase
drop_subscription m t s es =
    if not (is_end (find m t s es))
    then (let events = erase m t s es in
        (
          events,
          if is_end (find_if (is_same_mbox_msg m t) events)
              then unsubscribe_event_handlers m t ∷ []
              else [],
        ))
    else (es, [])

drop_subscription_for_all_states : ℕ → ℕ → VectorStorage → VectorStorage × List MboxCall
unfolding remove_if
drop_subscription_for_all_states m t es =
    let events = remove_if (λ i. (i.mbox == m) && (i.msg_type == t)) es in
    (events, if length es == length events then [] else unsubscribe_event_handlers m t ∷ [])

find_handler : ℕ → ℕ → ℕ → VectorStorage → Option ℕ
unfolding find find_if
find_handler m t s es = elim (find m t s es) [ none ↦ none | some i ↦ some i.handler ]

-- A subscription in the storage with the address of the mbox object that it holds. Several objects may
-- have the id of one mbox: create_named_mbox of mbox_core.cpp makes a new named_local_mbox_t each time.
pub record Held : Type 0 where
  pub info : Info
  pub address : ℕ

-- mbox_msg_type_pair_t with its order: mbox objects are compared by their addresses.
pub record MboxMsgTypePair : Type 0 where
  pub pair_mbox : ℕ
  pub pair_msg_type : ℕ

abbrev pub pair_lt : MboxMsgTypePair → MboxMsgTypePair → Bool
pair_lt p o =
    ltb p.pair_mbox o.pair_mbox
    || ((p.pair_mbox == o.pair_mbox) && ltb p.pair_msg_type o.pair_msg_type)

abbrev pub pair_eq : MboxMsgTypePair → MboxMsgTypePair → Bool
pair_eq p o = (p.pair_mbox == o.pair_mbox) && (p.pair_msg_type == o.pair_msg_type)

-- std::sort, by insertion, and std::unique with the erase of the tail.
pub insert : MboxMsgTypePair → List MboxMsgTypePair → List MboxMsgTypePair
insert p [] = p ∷ []
insert p (q ∷ qs) = let rest = insert p qs in if pair_lt q p then q ∷ rest else p ∷ q ∷ qs

pub sort : List MboxMsgTypePair → List MboxMsgTypePair
unfolding insert
sort [] = []
sort (p ∷ ps) = insert p (sort ps)

abbrev pub is_first : MboxMsgTypePair → List MboxMsgTypePair → Bool
is_first p [] = false
is_first p (q ∷ qs) = pair_eq p q

pub unique : List MboxMsgTypePair → List MboxMsgTypePair
unique [] = []
unique (p ∷ ps) = let rest = unique ps in if is_first p ps then rest else p ∷ rest

pub pairs_of : List Held → List MboxMsgTypePair
pairs_of [] = []
pairs_of (h ∷ hs) = record { pair_mbox = h.address; pair_msg_type = h.info.msg_type } ∷ pairs_of hs

pub unsubscribe_all : List MboxMsgTypePair → List MboxCall
unsubscribe_all [] = []
unsubscribe_all (p ∷ ps) =
    unsubscribe_event_handlers p.pair_mbox p.pair_msg_type ∷ unsubscribe_all ps

-- The calls of the destructor. The mbox of such a call is the address of the object that is called.
pub destroy_all_subscriptions : List Held → List MboxCall
unfolding sort unique pairs_of unsubscribe_all
destroy_all_subscriptions es = unsubscribe_all (unique (sort (pairs_of es)))

unfoldable pub ops : StorageOps VectorStorage
unfolding create_event_subscription drop_subscription drop_subscription_for_all_states find_handler
ops = record {
  create_event_subscription = create_event_subscription;
  drop_subscription = drop_subscription;
  drop_subscription_for_all_states = drop_subscription_for_all_states;
  find_handler = find_handler;
  drop_content = λ es. [];
  query_content = λ es. es;
  setup_content = λ info es. info;
  query_subscriptions_count = λ es. length es;
}
