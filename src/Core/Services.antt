-- ===== src/Core/Services.antt =====
-- src/core/service_registry.c. A pointer is a number, NULL is zero; the registry and the name are not
-- NULL. A name is the list of its characters before the NUL.
pub mod Map
use e_roole.Prelude.{
  ℕ, ◌&&◌, ◌||◌, not, Bool, true, false, List, [], Option, none, some, get_elem?, set, take,
  replicate, leb, ◌==◌, if◌then◌else◌,
}
use e_roole.Slots.{find_slot}
use e_roole.Raft.Datastore.Table.{strings_equal}

pub record ServiceEntry : Type 0 where
  pub name : List ℕ
  pub service_ptr : ℕ
  pub active : Bool

-- A row of cells for each type of service.
abbrev pub ServiceTable : Type 0
ServiceTable = List (List ServiceEntry)

-- `SERVICE_TYPE_MAX`
abbrev pub service_types : ℕ
service_types = 8

-- `service_registry_create`, where the allocation and the locks succeed.
unfoldable pub create : ServiceTable
create =
    replicate service_types (replicate 16 (record { name = []; service_ptr = 0; active = false }))

abbrev pub is_named : List ℕ → ServiceEntry → Bool
is_named name e = e.active && strings_equal e.name name

abbrev pub is_free : ServiceEntry → Bool
is_free e = not e.active

-- The cells of a type.
abbrev pub cells_of : ServiceTable → ℕ → List ServiceEntry
cells_of t type = elim (get_elem? t type) [ none ↦ [] | some es ↦ es ]

-- The name as it is stored: `strncpy` of MAX_SERVICE_NAME - 1 characters.
abbrev pub stored_name : List ℕ → List ℕ
stored_name name = take 63 name

-- `service_registry_register` on the cells of the type.
unfoldable pub add_service : List ServiceEntry → List ℕ → ℕ → Option (List ServiceEntry)
add_service es name service_ptr = elim (find_slot (is_named name) es) [
  | some (i, e) ↦ none
  | none ↦ elim (find_slot is_free es) [
    | none ↦ none
    | some (i, e) ↦
        some
          (set es i (record { name = stored_name name; service_ptr = service_ptr; active = true }))
  ]
]

-- `service_registry_unregister` on the cells of the type.
unfoldable pub remove_service : List ServiceEntry → List ℕ → Option (List ServiceEntry)
remove_service es name = elim (find_slot (is_named name) es) [
  | none ↦ none
  | some (i, e) ↦ some (set es i (record e { service_ptr = 0; active = false }))
]

-- `service_registry_get` on the cells of the type: the pointer, or NULL.
unfoldable pub find_service : List ServiceEntry → List ℕ → ℕ
find_service es name = elim (find_slot (is_named name) es) [
  | none ↦ 0
  | some (i, e) ↦ e.service_ptr
]

abbrev pub with_cells : ServiceTable → ℕ → Option (List ServiceEntry) → Bool × ServiceTable
with_cells t type none = (false, t)
with_cells t type (some es) = (true, set t type es)

-- `service_registry_register`
unfoldable pub register_service : ServiceTable → ℕ → List ℕ → ℕ → Bool × ServiceTable
unfolding add_service
register_service t type name service_ptr =
    if (service_ptr == 0) || leb service_types type
    then (false, t)
    else with_cells t type (add_service (cells_of t type) name service_ptr)

-- `service_registry_unregister`
unfoldable pub unregister_service : ServiceTable → ℕ → List ℕ → Bool × ServiceTable
unfolding remove_service
unregister_service t type name =
    if leb service_types type
    then (false, t)
    else with_cells t type (remove_service (cells_of t type) name)

-- `service_registry_get`
unfoldable pub get_service : ServiceTable → ℕ → List ℕ → ℕ
unfolding find_service
get_service t type name = if leb service_types type then 0 else find_service (cells_of t type) name
