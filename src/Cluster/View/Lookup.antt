-- ===== src/Cluster/View/Lookup.antt =====
-- What cluster_view_get finds after each operation.
use e_roole.Prelude.{
  erase, get_elem?, zero, suc, ℕ, ◌≡◌, inl, inr, refl, ap, sym, ◌∙◌, Bool, true, false, ◌&&◌, ◌||◌,
  List, [], ◌∷◌, ◌++◌, Option, none, some, length, set, ltb, leb, ◌==◌, ==_iff, ==_refl,
  if◌then◌else◌, arith, Bool-cases,
}
use e_roole.Slots.{find_slot, Found, here, there, Found-find_slot, Found-sat, find_slot-cases}
use e_roole.Cluster.View.{
  Member, View, has_id, seen, newcomer, is_alive, is_dead, add, update_status, with_status, remove,
  get_member, get,
}

-- No two members have the same id.
abbrev pub Distinct : List Member → Type 0
Distinct [] = Unit
Distinct (m ∷ ms) = (get_member ms m.node_id ≡ none) × Distinct ms

pub get_member-Found :
    (id : ℕ) {ms : List Member} {i : ℕ} {m : Member}
    → Found (has_id id) ms i m
    → get_member ms id ≡ some m
unfolding get_member
get_member-Found id (here h) = rw h refl
get_member-Found id (there h f) = rw (h, get_member-Found id f) refl

pub get_member-none :
    (id : ℕ) (ms : List Member) → find_slot (has_id id) ms ≡ none → get_member ms id ≡ none
unfolding get_member find_slot
get_member-none id [] n = refl
get_member-none id (m ∷ ms) n = elim (Bool-cases (has_id id m)) [
  | inl hit ↦ absurd (let n' = rw hit at n in cc)
  | inr miss ↦ elim (find_slot-cases (has_id id) ms) [
    | inl n' ↦ rw miss (get_member-none id ms n')
    | inr (i, x, f) ↦ absurd (let n' = rw (miss, Found-find_slot f) at n in cc)
  ]
]

-- The id of a cell of the table leads to a member.
pub get_member-some :
    (ms : List Member) (i : ℕ) (m : Member)
    → get_elem? ms i ≡ some m
    → (old : Member) × (get_member ms m.node_id ≡ some old)
unfolding get_member
get_member-some [] i m e = absurd cc
get_member-some (x ∷ ms) zero m e =
    let same : x ≡ m = cc in (x, rw (← same, ==_refl x.node_id) refl)
get_member-some (x ∷ ms) (suc i) m e =
    let (old, g) = get_member-some ms i m e in
    elim (Bool-cases (has_id m.node_id x)) [
      | inl hit ↦ (x, rw hit refl)
      | inr miss ↦ (old, rw miss g)
    ]

pub get_member-set :
    {id : ℕ} {ms : List Member} {i : ℕ} {old : Member} (v : Member) (k : ℕ)
    → Found (has_id id) ms i old
    → v.node_id ≡ id
    → get_member (set ms i v) k ≡ (if k == id then some v else get_member ms k)
unfolding get_member
get_member-set {id} v k (here {x} {xs} h) e = ground arith
get_member-set {id} v k (there {x} {y} {xs} {i} h f) e = ground (arith, get_member-set v k f e)

pub get_member-append :
    (ms : List Member) (v : Member) (k : ℕ)
    → get_member ms v.node_id ≡ none
    → get_member (ms ++ (v ∷ [])) k ≡ (if k == v.node_id then some v else get_member ms k)
unfolding get_member
get_member-append [] v k n = ground arith
get_member-append (m ∷ ms) v k n = ground (arith, get_member-append ms v k)

pub get_member-erase :
    (id : ℕ) {ms : List Member} {i : ℕ} {old : Member} (k : ℕ)
    → Found (has_id id) ms i old
    → Distinct ms
    → get_member (erase i ms) k ≡ (if k == id then none else get_member ms k)
unfolding get_member
get_member-erase id k (here {x} {xs} h) d = elim (Bool-cases (k == id)) [
  | inl same ↦
      let e = (==_iff k id).0 same in
      let e' = (==_iff x.node_id id).0 h in
      let gone : get_member xs x.node_id ≡ none = d.0 in
      rw same (ap (get_member xs) (e ∙ sym e') ∙ gone)
  | inr differ ↦ ground arith
]
get_member-erase id k (there {x} {y} {xs} {i} h f) d = ground (arith, get_member-erase id k f d.1)

pub newcomer-node_id : (m : Member) (now : ℕ) → (newcomer m now).node_id ≡ m.node_id
newcomer-node_id m now = ground arith

same_at :
    (ms : List Member) (k id : ℕ) (o : Option Member)
    → get_member ms id ≡ o
    → get_member ms k ≡ (if k == id then o else get_member ms k)
same_at ms k id o g = elim (Bool-cases (k == id)) [
  | inl same ↦ rw same (ap (get_member ms) ((==_iff k id).0 same) ∙ g)
  | inr differ ↦ rw differ refl
]

-- What the view makes of news of a member that it knows, or does not know, where it has room.
abbrev pub merged : Bool → Member → ℕ → Option Member → Option Member
merged room m now none = if room then some (newcomer m now) else none
merged room m now (some old) =
    if (is_alive m.status && is_dead old.status) || leb old.incarnation m.incarnation
    then some (seen m now)
    else some old

-- After cluster_view_add, the member's id leads to what the news and the member known before merge
-- to: the news, if it revives a dead member or its incarnation is not older, else the member known;
-- a member not known before is added if there is room. Every other id leads where it led before.
pub get-add :
    (v : View) (m : Member) (now k : ℕ)
    → get (add v m now).1 k ≡ (
        if k == m.node_id
        then merged (ltb (length v.members) v.capacity) m now (get v m.node_id)
        else get v k)
unfolding add
get-add v m now k = elim (find_slot-cases (has_id m.node_id) v.members) [
  | inl n ↦
      let g = get_member-none m.node_id v.members n in
      rw (n, add, g)
        (elim (Bool-cases (leb v.capacity (length v.members))) [
          | inl over ↦
              let no_room : ltb (length v.members) v.capacity ≡ false = ground arith in
              rw (over, no_room) (same_at v.members k m.node_id none g)
          | inr under ↦
              let room : ltb (length v.members) v.capacity ≡ true = ground arith in
              let e = newcomer-node_id m now in
              rw (under, room)
                (get_member-append v.members (newcomer m now) k (rw e g)
                  ∙ ap (λ id. if k == id then some (newcomer m now) else get v k) e)
        ])
  | inr (i, old, f) ↦
      let g = get_member-Found m.node_id f in
      let kept = same_at v.members k m.node_id (some old) g in
      rw (Found-find_slot f, add, g) (ground (arith, get_member-set (seen m now) k f refl, kept))
]

-- After cluster_view_update_status, the id of a member leads to the member with the status and
-- incarnation given, if that incarnation is not older than the member's, and every other id leads
-- where it led before.
pub get-update_status :
    (v : View) (id : ℕ) (status : ℕ) (incarnation now k : ℕ)
    → get (update_status v id status incarnation now).1 k ≡ (
        if k == id
        then elim (get v id) [
          | none ↦ none
          | some old ↦
              if leb old.incarnation incarnation
              then some (with_status old status incarnation now)
              else some old
        ]
        else get v k)
unfolding update_status
get-update_status v id status incarnation now k = elim (find_slot-cases (has_id id) v.members) [
  | inl n ↦
      let g = get_member-none id v.members n in
      rw (n, update_status, g) (same_at v.members k id none g)
  | inr (i, old, f) ↦
      let g = get_member-Found id f in
      let kept = same_at v.members k id (some old) g in
      let same_id : (with_status old status incarnation now).node_id ≡ id =
        (==_iff old.node_id id).0 (Found-sat f) in
      rw (Found-find_slot f, update_status, g)
        (elim (Bool-cases (leb old.incarnation incarnation)) [
          | inl newer ↦
              rw newer (get_member-set (with_status old status incarnation now) k f same_id)
          | inr older ↦ rw older kept
        ])
]

-- After cluster_view_remove its id leads to no member, and every other id leads where it led before,
-- if no two members have the same id.
pub get-remove :
    (v : View) (id k : ℕ)
    → Distinct v.members
    → get (remove v id).1 k ≡ (if k == id then none else get v k)
unfolding remove
get-remove v id k d = elim (find_slot-cases (has_id id) v.members) [
  | inl n ↦ rw (n, remove) (same_at v.members k id none (get_member-none id v.members n))
  | inr (i, old, f) ↦ rw (Found-find_slot f, remove) (get_member-erase id k f d)
]
