-- ===== src/Gossip/Swim/Views.antt =====
-- How the gossip protocol of src/gossip/protocol changes the view of src/cluster/cluster_view.c.
use e_roole.Prelude.{
  ℕ, ◌≤◌, ◌<◌, ◌≡◌, ◌≢◌, ◌⊎◌, inl, inr, refl, ap, ◌∙◌, ◌&&◌, ◌||◌, true, none, some, leb, ltb, ◌==◌,
  ==_iff, arith, Bool-cases,
}
use e_roole.Cluster.View.{
  Member, View, dead, is_alive, is_dead, seen, add, update_status, with_status, get,
}
use e_roole.Cluster.View.Lookup.{get-add, get-update_status, merged}
use e_roole.Cluster.View.Keeps.{Valid, ViewReach, start, step, adds, updates, ViewReach-Valid}

-- News of a status that may replace a member's: it is of a later incarnation, or the member is not
-- dead, or the news is that it is.
abbrev pub Allowed : Member → ℕ → ℕ → Type 0
Allowed old status incarnation =
    (old.incarnation < incarnation) ⊎ ((old.status ≢ dead) ⊎ (status ≡ dead))

-- A change that the protocol makes to the view.
pub data GossipStep (v : View) : View → Type 0 where
  meets : (m : Member) (now : ℕ) → get v m.node_id ≡ none → GossipStep v (add v m now).1
  revives :
      (m old : Member) (now : ℕ)
      → get v m.node_id ≡ some old
      → old.incarnation < m.incarnation
      → GossipStep v (add v m now).1
  told :
      (id status incarnation now : ℕ) (old : Member)
      → get v id ≡ some old
      → Allowed old status incarnation
      → GossipStep v (update_status v id status incarnation now).1

pub data GossipReach (v : View) : View → Type 0 where
  same : GossipReach v v
  after : {u w : View} → GossipReach v u → GossipStep u w → GossipReach v w

pub GossipReach-append : {v u w : View} → GossipReach v u → GossipReach u w → GossipReach v w
GossipReach-append r same = r
GossipReach-append r (after s x) = after (GossipReach-append r s) x

-- What becomes of a member: a later incarnation, or the same one, in which the dead stay dead.
abbrev pub Later : Member → Member → Type 0
Later old new =
    (old.incarnation < new.incarnation)
    ⊎ ((old.incarnation ≡ new.incarnation) × ((old.status ≢ dead) ⊎ (new.status ≡ dead)))

pub Later-trans : (a b c : Member) → Later a b → Later b c → Later a c
Later-trans a b c (inl l) (inl k) = inl (omega arith)
Later-trans a b c (inl l) (inr (e, k)) = inl (omega arith)
Later-trans a b c (inr (e, l)) (inl k) = inl (omega arith)
Later-trans a b c (inr (e, inl n)) (inr (e', k)) = inr (e ∙ e', inl n)
Later-trans a b c (inr (e, inr d)) (inr (e', inl n)) = absurd (n d)
Later-trans a b c (inr (e, inr d)) (inr (e', inr d')) = inr (e ∙ e', inr d')

pub Later-refl : (m : Member) → Later m m
Later-refl m = inr (refl, ground arith)

-- What an id leads to after a change, where it led to a member before.
abbrev pub Kept : View → Member → ℕ → Type 0
Kept w old id = (new : Member) × (get w id ≡ some new) × Later old new

pub same_member :
    (v : View) (k id : ℕ) (old old' : Member)
    → get v k ≡ some old
    → get v id ≡ some old'
    → (k == id) ≡ true
    → old ≡ old'
same_member v k id old old' g g' e =
    let e' : get v k ≡ get v id = ap (get v) ((==_iff k id).0 e) in cc

meets-Kept :
    (v : View) (m : Member) (now k : ℕ) (old : Member)
    → get v m.node_id ≡ none
    → get v k ≡ some old
    → Kept (add v m now).1 old k
meets-Kept v m now k old n g = elim (Bool-cases (k == m.node_id)) [
  | inl e ↦
      absurd (let e' : get v k ≡ get v m.node_id = ap (get v) ((==_iff k m.node_id).0 e) in cc)
  | inr differ ↦ (old, (rw differ at (get-add v m now k)) ∙ g, Later-refl old)
]

revives-Kept :
    (v : View) (m old' : Member) (now k : ℕ) (old : Member)
    → get v m.node_id ≡ some old'
    → old'.incarnation < m.incarnation
    → get v k ≡ some old
    → Kept (add v m now).1 old k
revives-Kept v m old' now k old g' l g = elim (Bool-cases (k == m.node_id)) [
  | inl e ↦
      let is_old : old ≡ old' = same_member v k m.node_id old old' g g' e in
      let newer : leb old'.incarnation m.incarnation ≡ true = ground arith in
      let told_true : ((is_alive m.status && is_dead old'.status)
            || leb old'.incarnation m.incarnation)
          ≡ true =
        ground arith in
      (seen m now, (rw (e, g', merged, told_true) at (get-add v m now k)), inl (rw is_old l))
  | inr differ ↦ (old, (rw differ at (get-add v m now k)) ∙ g, Later-refl old)
]

Later-with_status :
    (old : Member) (status incarnation now : ℕ)
    → old.incarnation ≤ incarnation
    → Allowed old status incarnation
    → Later old (with_status old status incarnation now)
unfolding with_status
Later-with_status old status incarnation now l (inl k) = inl k
Later-with_status old status incarnation now l (inr k) =
    elim (Bool-cases (ltb old.incarnation incarnation)) [
      | inl less ↦ inl (ground arith)
      | inr equal ↦ inr (ground arith, k)
    ]

told-Kept :
    (v : View) (id status incarnation now : ℕ) (old' : Member) (k : ℕ) (old : Member)
    → get v id ≡ some old'
    → Allowed old' status incarnation
    → get v k ≡ some old
    → Kept (update_status v id status incarnation now).1 old k
told-Kept v id status incarnation now old' k old g' allowed g = elim (Bool-cases (k == id)) [
  | inl e ↦
      let is_old : old ≡ old' = same_member v k id old old' g g' e in
      let new = with_status old' status incarnation now in
      elim (Bool-cases (leb old'.incarnation incarnation)) [
        | inl newer ↦ (
          new,
          (rw (e, g', newer) at (get-update_status v id status incarnation now k)),
          rw is_old (Later-with_status old' status incarnation now (ground arith) allowed),
        )
        | inr older ↦ (
          old',
          (rw (e, g', older) at (get-update_status v id status incarnation now k)),
          rw is_old (Later-refl old'),
        )
      ]
  | inr differ ↦
      (old, (rw differ at (get-update_status v id status incarnation now k)) ∙ g, Later-refl old)
]

GossipStep-Kept :
    {v w : View} (k : ℕ) (old : Member) → GossipStep v w → get v k ≡ some old → Kept w old k
GossipStep-Kept {v} k old (meets m now n) g = meets-Kept v m now k old n g
GossipStep-Kept {v} k old (revives m old' now g' l) g = revives-Kept v m old' now k old g' l g
GossipStep-Kept {v} k old (told id status incarnation now old' g' allowed) g =
    told-Kept v id status incarnation now old' k old g' allowed g

-- Whatever the protocol does to the view, a member that it knew it knows still, with an incarnation
-- that is not lower; and if the member was dead and is not dead any more, the incarnation is higher.
pub GossipReach-Kept :
    (v w : View) (k : ℕ) (old : Member) → GossipReach v w → get v k ≡ some old → Kept w old k
GossipReach-Kept v w k old same g = (old, g, Later-refl old)
GossipReach-Kept v w k old (after {u} r s) g =
    let (mid, g', l) = GossipReach-Kept v u k old r g in
    let (new, g'', l') = GossipStep-Kept k mid s g' in (new, g'', Later-trans old mid new l l')

GossipReach-ViewReach : {v w : View} → GossipReach v w → ViewReach v w
GossipReach-ViewReach same = start
GossipReach-ViewReach (after r (meets m now n)) = step (GossipReach-ViewReach r) (adds m now)
GossipReach-ViewReach (after r (revives m old now g l)) =
    step (GossipReach-ViewReach r) (adds m now)
GossipReach-ViewReach (after r (told id status incarnation now old g a)) =
    step (GossipReach-ViewReach r) (updates id status incarnation now)

pub GossipReach-Valid : {v w : View} → GossipReach v w → Valid v → Valid w
GossipReach-Valid {v} {w} r h = ViewReach-Valid v w h (GossipReach-ViewReach r)
