-- ===== src/Cluster/View/Keeps.antt =====
-- The well-formedness of the member table of cluster_view.c.
use e_roole.Prelude.{
  erase, ℕ, suc, ◌≤◌, ◌≡◌, inl, inr, refl, ap, sym, ◌∙◌, Bool, false, List, [], ◌∷◌, ◌++◌, none,
  some, length, length-set, length-append, set, leb, ◌==◌, ==_iff, if◌then◌else◌, arith, Bool-cases,
}
use e_roole.Slots.{Found, here, there, Found-find_slot, Found-sat, find_slot-cases}
use e_roole.Cluster.View.{
  Member, View, has_id, seen, newcomer, add, update_status, with_status, remove, get_member,
}
use e_roole.Cluster.View.Lookup.{
  Distinct, get_member-none, get_member-set, get_member-append, get_member-erase, newcomer-node_id,
}

abbrev pub Valid : View → Type 0
Valid v = Distinct v.members × (length v.members ≤ v.capacity)

Distinct-set :
    {id : ℕ} {ms : List Member} {i : ℕ} {old : Member} (v : Member)
    → Found (has_id id) ms i old
    → v.node_id ≡ id
    → Distinct ms
    → Distinct (set ms i v)
Distinct-set {id} v (here {x} {xs} h) e d =
    let same : x.node_id ≡ v.node_id = (==_iff x.node_id id).0 h ∙ sym e in
    (ap (get_member xs) (sym same) ∙ d.0, d.1)
Distinct-set {id} v (there {x} {y} {xs} {i} h f) e d =
    let sees : get_member (set xs i v) x.node_id
        ≡ (if x.node_id == id then some v else get_member xs x.node_id) =
      get_member-set v x.node_id f e in
    ((rw h at sees) ∙ d.0, Distinct-set v f e d.1)

Distinct-append :
    (ms : List Member) (v : Member)
    → get_member ms v.node_id ≡ none
    → Distinct ms
    → Distinct (ms ++ (v ∷ []))
unfolding get_member
Distinct-append [] v n d = (refl, tt)
Distinct-append (m ∷ ms) v n d =
    let rest : get_member ms v.node_id ≡ none = ground arith in
    let differ : (m.node_id == v.node_id) ≡ false = ground arith in
    ((rw differ at (get_member-append ms v m.node_id rest)) ∙ d.0, Distinct-append ms v rest d.1)

Distinct-erase :
    (id : ℕ) {ms : List Member} {i : ℕ} {old : Member}
    → Found (has_id id) ms i old
    → Distinct ms
    → Distinct (erase i ms)
Distinct-erase id (here {x} {xs} h) d = d.1
Distinct-erase id (there {x} {y} {xs} {i} h f) d =
    ((rw h at (get_member-erase id x.node_id f d.1)) ∙ d.0, Distinct-erase id f d.1)

length-erase :
    {p : Member → Bool} {ms : List Member} {i : ℕ} {old : Member}
    → Found p ms i old
    → suc (length (erase i ms)) ≡ length ms
length-erase (here h) = refl
length-erase (there h f) = ap suc (length-erase f)

Valid-set :
    {id : ℕ} (w : View) {i : ℕ} {old : Member} (v : Member)
    → Found (has_id id) w.members i old
    → v.node_id ≡ id
    → Valid w
    → Valid (record w { members = set w.members i v })
Valid-set w {i} v f e h = (Distinct-set v f e h.0, omega (arith, length-set w.members i v))

-- One operation on the view.
pub data ViewStep (v : View) : View → Type 0 where
  adds : (m : Member) (now : ℕ) → ViewStep v (add v m now).1
  updates :
      (id : ℕ) (status : ℕ) (incarnation now : ℕ)
      → ViewStep v (update_status v id status incarnation now).1
  removes : (id : ℕ) → ViewStep v (remove v id).1

pub data ViewReach (v : View) : View → Type 0 where
  start : ViewReach v v
  step : {u w : View} → ViewReach v u → ViewStep u w → ViewReach v w

add-Valid : (v : View) (m : Member) (now : ℕ) → Valid v → Valid (add v m now).1
unfolding add
add-Valid v m now h = elim (find_slot-cases (has_id m.node_id) v.members) [
  | inl n ↦
      rw (n, add)
        (elim (Bool-cases (leb v.capacity (length v.members))) [
          | inl over ↦ rw over h
          | inr under ↦
              let x = newcomer m now in
              let g = get_member-none m.node_id v.members n in
              rw under (
                Distinct-append v.members x (ap (get_member v.members) (newcomer-node_id m now) ∙ g)
                    h.0,
                ground (arith, length-append v.members (x ∷ [])),
              )
        ])
  | inr (i, old, f) ↦
      let changed = Valid-set v (seen m now) f refl h in
      rw (Found-find_slot f, add) (ground (arith, changed))
]

update_status-Valid :
    (v : View) (id : ℕ) (status : ℕ) (incarnation now : ℕ)
    → Valid v
    → Valid (update_status v id status incarnation now).1
unfolding update_status
update_status-Valid v id status incarnation now h = elim (find_slot-cases (has_id id) v.members) [
  | inl n ↦ rw (n, update_status) h
  | inr (i, old, f) ↦
      let x = with_status old status incarnation now in
      let same : x.node_id ≡ id = (==_iff old.node_id id).0 (Found-sat f) in
      let changed = Valid-set v x f same h in
      rw (Found-find_slot f, update_status)
        (elim (Bool-cases (leb old.incarnation incarnation)) [
          | inl newer ↦ rw newer changed
          | inr older ↦ rw older h
        ])
]

remove-Valid : (v : View) (id : ℕ) → Valid v → Valid (remove v id).1
unfolding remove
remove-Valid v id h = elim (find_slot-cases (has_id id) v.members) [
  | inl n ↦ rw (n, remove) h
  | inr (i, old, f) ↦
      rw (Found-find_slot f, remove) (Distinct-erase id f h.0, omega (arith, length-erase f))
]

ViewStep-Valid : {v w : View} → ViewStep v w → Valid v → Valid w
ViewStep-Valid {v} (adds m now) h = add-Valid v m now h
ViewStep-Valid {v} (updates id status incarnation now) h =
    update_status-Valid v id status incarnation now h
ViewStep-Valid {v} (removes id) h = remove-Valid v id h

-- In a view reached by additions, status updates and removals, in any order, from one whose members
-- have different ids and fit the capacity, the members have different ids and fit the capacity.
pub ViewReach-Valid : (v w : View) → Valid v → ViewReach v w → Valid w
ViewReach-Valid v w h start = h
ViewReach-Valid v w h (step {u} r s) = ViewStep-Valid s (ViewReach-Valid v u h r)
