-- ===== src/Mboxes/Container.antt =====
-- so_5/rt/impl/h/local_mbox.hpp, subscriber_adaptive_container_t: the subscribers in the order of
-- special_agent_ptr_compare (so_5/rt/impl/h/agent_ptr_compare.hpp), in a vector or, if they are many,
-- in a map. A map is the list of its values in order, an iterator is a position, and `end` is the
-- size. An allocation that fails in switch_storage_to_vector, which keeps the map, is not modelled.
use android_vendor_sobjectiz.Common.{
  ℕ, zero, suc, ltb, ◌==◌, ◌&&◌, ◌||◌, if◌then◌else◌, Bool, true, false, Option, none, some, List,
  [], ◌∷◌, length, is_nil,
}
use android_vendor_sobjectiz.Mboxes.Subscriber.{SubscriberInfo}
pub mod Order
pub mod Changes
pub mod Laws
pub mod Insertion

pub data StorageType : Type 0 where
  vector map : StorageType

pub record Container : Type 0 where
  pub storage : StorageType
  pub in_vector : List SubscriberInfo
  pub in_map : List SubscriberInfo

abbrev pub switch_to_vector : ℕ
switch_to_vector = 16

abbrev pub switch_to_map : ℕ
switch_to_map = 32

abbrev pub empty_container : Container
empty_container = record { storage = vector; in_vector = []; in_map = [] }

abbrev pub elements : Container → List SubscriberInfo
elements c = elim c.storage [ vector ↦ c.in_vector | map ↦ c.in_map ]

-- Positions in a list: those of std::vector and of an iterator of std::map.
unfoldable pub element : List SubscriberInfo → ℕ → Option SubscriberInfo
element [] p = none
element (i ∷ es) zero = some i
element (i ∷ es) (suc p) = element es p

unfoldable pub insert_at : ℕ → SubscriberInfo → List SubscriberInfo → List SubscriberInfo
insert_at zero x es = x ∷ es
insert_at (suc p) x [] = x ∷ []
insert_at (suc p) x (i ∷ es) = i ∷ insert_at p x es

unfoldable pub erase_at : ℕ → List SubscriberInfo → List SubscriberInfo
erase_at p [] = []
erase_at zero (i ∷ es) = es
erase_at (suc p) (i ∷ es) = i ∷ erase_at p es

unfoldable pub modify_at :
    ℕ → (SubscriberInfo → SubscriberInfo) → List SubscriberInfo → List SubscriberInfo
modify_at p f [] = []
modify_at zero f (i ∷ es) = f i ∷ es
modify_at (suc p) f (i ∷ es) = i ∷ modify_at p f es

-- `priority a` is the priority of the agent `a`.
module _ (priority : ℕ → ℕ) where
  abbrev pub is_before : ℕ → ℕ → Bool
  is_before a b = ltb (priority b) (priority a) || (priority a == priority b && ltb a b)

  unfoldable pub lower_bound : ℕ → List SubscriberInfo → ℕ
  lower_bound a [] = 0
  lower_bound a (i ∷ es) = if is_before i.agent a then suc (lower_bound a es) else 0

  unfoldable pub find_in_vector : ℕ → List SubscriberInfo → ℕ
  unfolding lower_bound element
  find_in_vector a es =
      let pos = lower_bound a es in
      elim (element es pos) [ none ↦ length es | some i ↦ if i.agent == a then pos else length es ]

  -- std::map compares only by the order of its keys.
  unfoldable pub find_in_map : ℕ → List SubscriberInfo → ℕ
  unfolding lower_bound element
  find_in_map a es =
      let pos = lower_bound a es in
      elim (element es pos) [
        | none ↦ length es
        | some i ↦ if is_before a i.agent then length es else pos
      ]

  unfoldable pub insert_to_vector : SubscriberInfo → List SubscriberInfo → List SubscriberInfo
  unfolding lower_bound insert_at
  insert_to_vector x es = insert_at (lower_bound x.agent es) x es

  -- std::map::emplace: a key that is there keeps its value.
  unfoldable pub insert_to_map : SubscriberInfo → List SubscriberInfo → List SubscriberInfo
  unfolding lower_bound insert_at find_in_map element
  insert_to_map x es =
      if find_in_map x.agent es == length es then insert_at (lower_bound x.agent es) x es else es

  unfoldable pub insert_all : List SubscriberInfo → List SubscriberInfo → List SubscriberInfo
  unfolding insert_to_map lower_bound insert_at find_in_map element
  insert_all [] es = es
  insert_all (x ∷ xs) es = insert_all xs (insert_to_map x es)

  unfoldable pub switch_storage_to_map : Container → Container
  switch_storage_to_map c = record {
    storage = map;
    in_map = insert_all c.in_vector [];
    in_vector = [];
  }

  unfoldable pub insert_to_storage : SubscriberInfo → Container → Container
  insert_to_storage x c = elim c.storage [
    | vector ↦ record c { in_vector = insert_to_vector x c.in_vector }
    | map ↦ record c { in_map = insert_to_map x c.in_map }
  ]

  unfoldable pub insert : SubscriberInfo → Container → Container
  insert x c = elim c.storage [
    | vector ↦
        insert_to_storage x
          (if length c.in_vector == switch_to_map then switch_storage_to_map c else c)
    | map ↦ insert_to_storage x c
  ]

  unfoldable pub find : ℕ → Container → ℕ
  unfolding find_in_vector find_in_map lower_bound element
  find a c = elim c.storage [ vector ↦ find_in_vector a c.in_vector | map ↦ find_in_map a c.in_map ]

unfoldable pub switch_storage_to_vector : Container → Container
switch_storage_to_vector c = record { storage = vector; in_vector = c.in_map; in_map = [] }

unfoldable pub erase : ℕ → Container → Container
unfolding erase_at switch_storage_to_vector
erase p c = elim c.storage [
  | vector ↦ record c { in_vector = erase_at p c.in_vector }
  | map ↦
      let rest : Container = record c { in_map = erase_at p c.in_map } in
      if ltb (length rest.in_map) switch_to_vector then switch_storage_to_vector rest else rest
]

-- A change of the subscriber that an iterator stands at.
unfoldable pub modify : ℕ → (SubscriberInfo → SubscriberInfo) → Container → Container
unfolding modify_at
modify p f c = elim c.storage [
  | vector ↦ record c { in_vector = modify_at p f c.in_vector }
  | map ↦ record c { in_map = modify_at p f c.in_map }
]
