-- ===== src/Cluster/View.antt =====
-- src/cluster/cluster_view.c. The list `members` is the first `count` cells of the array, the only
-- ones that the code reads. An argument is never NULL, and `now` is what time_now_ms returns.
pub mod Lookup
pub mod Keeps
use e_roole.Prelude.{
  erase, ℕ, zero, suc, ◌+◌, Bool, true, false, ◌&&◌, List, [], ◌∷◌, ◌++◌, Option, none, some,
  length, set, ltb, leb, ◌==◌, if◌then◌else◌,
}
use e_roole.Slots.{find_slot}

-- `node_status_t` and `node_type_t`. A field of these types holds whatever byte the wire carries.
abbrev pub alive : ℕ
alive = 0

abbrev pub suspect : ℕ
suspect = 1

abbrev pub dead : ℕ
dead = 2

abbrev pub worker : ℕ
worker = 2

pub record Member : Type 0 where
  pub node_id : ℕ
  pub node_type : ℕ
  pub ip_address : List ℕ
  pub gossip_port : ℕ
  pub data_port : ℕ
  pub status : ℕ
  pub last_seen_ms : ℕ
  pub incarnation : ℕ

pub record View : Type 0 where
  pub members : List Member
  pub capacity : ℕ

pub data ViewCode : Type 0 where
  view_ok view_invalid view_notfound view_full : ViewCode

abbrev pub is_alive : ℕ → Bool
is_alive status = status == alive

abbrev pub is_suspect : ℕ → Bool
is_suspect status = status == suspect

abbrev pub is_dead : ℕ → Bool
is_dead status = status == dead

abbrev pub has_id : ℕ → Member → Bool
has_id id m = m.node_id == id

-- `cluster_view_init`, where the allocation and the lock succeed.
unfoldable pub init : ℕ → Option View
init zero = none
init (suc n) = some (record { members = []; capacity = suc n })

abbrev pub seen : Member → ℕ → Member
seen m now = record m { last_seen_ms = now }

-- A new member, whose time is set only if it is alive.
abbrev pub newcomer : Member → ℕ → Member
newcomer m now = if is_alive m.status then seen m now else m

-- `cluster_view_add`
unfoldable pub add : View → Member → ℕ → ViewCode × View
add v m now = elim (find_slot (has_id m.node_id) v.members) [
  | some (i, old) ↦
      if is_alive m.status && is_dead old.status
      then (view_ok, record v { members = set v.members i (seen m now) })
      else if leb old.incarnation m.incarnation
      then (view_ok, record v { members = set v.members i (seen m now) })
      else (view_ok, v)
  | none ↦
      if leb v.capacity (length v.members)
      then (view_full, v)
      else (view_ok, record v { members = v.members ++ (newcomer m now ∷ []) })
]

-- The member with a status and incarnation that it is told of.
unfoldable pub with_status : Member → ℕ → ℕ → ℕ → Member
with_status old status incarnation now = record old {
  status = status;
  incarnation = incarnation;
  last_seen_ms =
      if is_alive status
      then now
      else if is_suspect status && is_alive old.status
      then now
      else old.last_seen_ms;
}

-- `cluster_view_update_status`
unfoldable pub update_status : View → ℕ → ℕ → ℕ → ℕ → ViewCode × View
unfolding with_status
update_status v id status incarnation now = elim (find_slot (has_id id) v.members) [
  | none ↦ (view_notfound, v)
  | some (i, old) ↦
      if leb old.incarnation incarnation
      then (
        view_ok,
        record v { members = set v.members i (with_status old status incarnation now) },
      )
      else (view_ok, v)
]

-- `cluster_view_remove`
unfoldable pub remove : View → ℕ → ViewCode × View
remove v id = elim (find_slot (has_id id) v.members) [
  | none ↦ (view_notfound, v)
  | some (i, old) ↦ (view_ok, record v { members = erase i v.members })
]

-- `cluster_view_get`
unfoldable pub get_member : List Member → ℕ → Option Member
get_member [] id = none
get_member (m ∷ ms) id = if has_id id m then some m else get_member ms id

abbrev pub get : View → ℕ → Option Member
get v id = get_member v.members id

-- The loop of `cluster_view_list_by_type` and `cluster_view_list_alive` with room for `n` ids.
unfoldable pub list_where : (Member → Bool) → List Member → ℕ → List ℕ
list_where p ms zero = []
list_where p [] (suc n) = []
list_where p (m ∷ ms) (suc n) =
    let rest = list_where p ms (suc n) in
    let fewer = list_where p ms n in if p m then m.node_id ∷ fewer else rest

abbrev pub list_by_type : View → ℕ → ℕ → List ℕ
list_by_type v type n = list_where (λ m. (m.node_type == type)) v.members n

abbrev pub list_alive : View → ℕ → ℕ → List ℕ
list_alive v type n = list_where (λ m. (m.node_type == type) && is_alive m.status) v.members n
