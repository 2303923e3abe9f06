-- ===== src/Coops/Data.antt =====
-- The data of the registry of cooperations: agent_core_t of so_5/rt/impl/h/agent_core.hpp and coop_t of
-- so_5/rt/h/agent_coop.hpp. Names are numbers in the order of the strings. A pointer to a cooperation
-- is its name: the maps hold one object for a name, and `coops` says which; at the other names it is
-- of no meaning.
use android_vendor_sobjectiz.Common.{
  ℕ, ◌==◌, ltb, if◌then◌else◌, Bool, true, false, ◌&&◌, ◌||◌, Option, List, [], ◌∷◌,
}

pub data RegistrationStatus : Type 0 where
  coop_not_registered coop_registered coop_deregistering : RegistrationStatus

pub record Coop : Type 0 where
  pub parent_coop_name : Option ℕ
  pub agent_count : ℕ
  pub reference_count : ℕ
  pub parent_coop_ptr : Option ℕ
  pub registration_status : RegistrationStatus
  pub dereg_reason : ℕ

pub record Relation : Type 0 where
  pub parent : ℕ
  pub child : ℕ

-- `final_dereg_chain` holds the cooperations sent to the thread of the final deregistration.
pub record Core : Type 0 where
  pub coops : ℕ → Coop
  pub registered_coop : List ℕ
  pub deregistered_coop : List ℕ
  pub parent_child_relations : List Relation
  pub deregistration_started : Bool
  pub total_agent_count : ℕ
  pub final_dereg_chain : List ℕ

-- The maps and the set are ordered.
unfoldable pub mem : ℕ → List ℕ → Bool
mem n [] = false
mem n (x ∷ xs) = (x == n) || mem n xs

unfoldable pub insert : ℕ → List ℕ → List ℕ
insert n [] = n ∷ []
insert n (x ∷ xs) =
    let rest = insert n xs in if x == n then x ∷ xs else if ltb n x then n ∷ x ∷ xs else x ∷ rest

unfoldable pub erase : ℕ → List ℕ → List ℕ
erase n [] = []
erase n (x ∷ xs) = let rest = erase n xs in if x == n then xs else x ∷ rest

abbrev pub is_relation : ℕ → ℕ → Relation → Bool
is_relation p c r = (r.parent == p) && (r.child == c)

abbrev pub is_before : ℕ → ℕ → Relation → Bool
is_before p c r = ltb p r.parent || ((p == r.parent) && ltb c r.child)

unfoldable pub insert_relation : ℕ → ℕ → List Relation → List Relation
insert_relation p c [] = (record { parent = p; child = c }) ∷ []
insert_relation p c (r ∷ rs) =
    let rest = insert_relation p c rs in
    if is_relation p c r
    then r ∷ rs
    else if is_before p c r
    then (record { parent = p; child = c }) ∷ r ∷ rs
    else r ∷ rest

unfoldable pub erase_relation : ℕ → ℕ → List Relation → List Relation
erase_relation p c [] = []
erase_relation p c (r ∷ rs) =
    let rest = erase_relation p c rs in if is_relation p c r then rs else r ∷ rest

-- What the loop from lower_bound on visits: the pairs with this parent, in their order.
unfoldable pub children : ℕ → List Relation → List ℕ
children p [] = []
children p (r ∷ rs) = let rest = children p rs in if r.parent == p then r.child ∷ rest else rest

abbrev pub put_coop : ℕ → Coop → Core → Core
put_coop n c core = record core { coops = λ m. if m == n then c else core.coops m }

abbrev pub is_registered : RegistrationStatus → Bool
is_registered coop_registered = true
is_registered _ = false
