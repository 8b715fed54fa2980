-- ===== src/Gossip/Swim/Timers.antt =====
-- What gossip_protocol_check_timeouts of src/gossip/protocol/swim_state.c does to each member.
use e_roole.Prelude.{
  ℕ, zero, suc, ◌+◌, ◌^◌, ◌<◌, ◌≡◌, ◌⊎◌, inl, inr, refl, ap, subst, sym, ◌∙◌, ◌&&◌, Bool, true,
  false, List, [], ◌∷◌, some, length, get_elem?, leb, ltb, ◌==◌, ==_iff, ==_refl, if◌then◌else◌,
  arith, Bool-cases, Option-cases,
}
use e_roole.Cluster.View.{
  Member, View, alive, suspect, dead, is_alive, update_status, with_status, get, get_member,
}
use e_roole.Cluster.View.Lookup.{get-update_status, Distinct}
use e_roole.Cluster.View.Keeps.{Valid}
use e_roole.Gossip.Swim.Runs.{check_member-Reaches, check_acks-Reaches}
use e_roole.Gossip.Swim.{Protocol, Config, PendingAck, Result}
use e_roole.Gossip.Swim.Rounds.{
  ack_timeout, check_acks, is_expired, check_member, check_suspects, check_timeouts, elapsed,
}
use e_roole.Gossip.Swim.Views.{same_member, GossipReach-Valid}

-- A member that did not answer in time, and one suspected for longer than the timeout.
abbrev pub Doubted : ℕ → Member → Member → Type 0
Doubted now old new =
    (new ≡ old) ⊎ ((old.status ≡ alive) × (new ≡ with_status old suspect old.incarnation now))

abbrev pub Buried : ℕ → ℕ → Member → Member → Type 0
Buried timeout now old new =
    (new ≡ old)
    ⊎ ((old.status ≡ suspect)
        × (timeout < elapsed now old.last_seen_ms)
        × (new ≡ with_status old dead old.incarnation now))

-- Every member of one view is related to the member of its id in another.
abbrev pub Becomes : (Member → Member → Type 0) → View → View → Type 0
Becomes R v w =
    (k : ℕ) (old : Member) → get v k ≡ some old → (new : Member) × (get w k ≡ some new) × R old new

Becomes-trans :
    (R S T : Member → Member → Type 0) (u v w : View)
    → ((a b c : Member) → R a b → S b c → T a c)
    → Becomes R u v
    → Becomes S v w
    → Becomes T u w
Becomes-trans R S T u v w t r s k old g =
    let (mid, g', x) = r k old g in let (new, g'', y) = s k mid g' in (new, g'', t old mid new x y)

Doubted-trans : (now : ℕ) (a b c : Member) → Doubted now a b → Doubted now b c → Doubted now a c
unfolding with_status
Doubted-trans now a b c (inl e) (inl e') = inl (e' ∙ e)
Doubted-trans now a b c (inl e) (inr (s, e')) = inr (
    subst (λ (x : Member). (x.status ≡ alive) × (c ≡ with_status x suspect x.incarnation now)) e
      (s, e'))
Doubted-trans now a b c (inr (s, e)) (inl e') = inr (s, e' ∙ e)
Doubted-trans now a b c (inr (s, e)) (inr (s', e')) =
    absurd (let x : suspect ≡ alive = ap Member.status (sym e) ∙ s' in omega arith)

Buried-trans :
    (timeout now : ℕ) (a b c : Member)
    → Buried timeout now a b
    → Buried timeout now b c
    → Buried timeout now a c
unfolding with_status
Buried-trans timeout now a b c (inl e) r = subst (λ (x : Member). Buried timeout now x c) e r
Buried-trans timeout now a b c (inr (s, l, e)) (inl e') = inr (s, l, e' ∙ e)
Buried-trans timeout now a b c (inr (s, l, e)) (inr (s', l', e')) =
    absurd (let x : dead ≡ suspect = ap Member.status (sym e) ∙ s' in omega arith)

-- What a status told of a member, with the incarnation known, does to the view.
update_status-Becomes :
    (R : Member → Member → Type 0) (v : View) (id status now : ℕ) (m : Member)
    → get v id ≡ some m
    → ((x : Member) → R x x)
    → R m (with_status m status m.incarnation now)
    → Becomes R v (update_status v id status m.incarnation now).1
update_status-Becomes R v id status now m g same r k old g' = elim (Bool-cases (k == id)) [
  | inl e ↦
      let is_m : old ≡ m = same_member v k id old m g' g e in
      let current : leb m.incarnation m.incarnation ≡ true = ground arith in
      (
        with_status m status m.incarnation now,
        rw (e, g, current) at (get-update_status v id status m.incarnation now k),
        rw is_m r,
      )
  | inr differ ↦
      (old, (rw differ at (get-update_status v id status m.incarnation now k)) ∙ g', same old)
]

if-Becomes :
    (R : Member → Member → Type 0) (v : View) (b : Bool) (q r : Result)
    → (b ≡ true → Becomes R v q.0.view)
    → (b ≡ false → Becomes R v r.0.view)
    → Becomes R v (if b then q else r).0.view
if-Becomes R v true q r h k = h refl
if-Becomes R v false q r h k = k refl

Becomes-refl : (R : Member → Member → Type 0) (v : View) → ((x : Member) → R x x) → Becomes R v v
Becomes-refl R v h k old g = (old, g, h old)

ack_timeout-Becomes :
    (p : Protocol) (node now : ℕ) → Becomes (Doubted now) p.view (ack_timeout p node now).0.view
unfolding ack_timeout
ack_timeout-Becomes p node now =
    let stay : Becomes (Doubted now) p.view p.view =
      Becomes-refl (Doubted now) p.view (λ x. inl refl) in
    elim (Option-cases (get p.view node)) [
      | inl n ↦ rw (n, ack_timeout) stay
      | inr (m, g) ↦
          rw (g, ack_timeout)
            (if-Becomes (Doubted now) p.view (is_alive m.status) _ _
              (λ up.
                update_status-Becomes (Doubted now) p.view node suspect now m g (λ x. inl refl)
                  (inr (ground arith, refl)))
              λ _. stay)
    ]

check_acks-Becomes :
    (acks : List PendingAck) (p : Protocol) (now : ℕ)
    → Becomes (Doubted now) p.view (check_acks acks p now).1.0.view
unfolding check_acks
check_acks-Becomes [] p now = Becomes-refl (Doubted now) p.view (λ x. inl refl)
check_acks-Becomes (a ∷ rest) p now =
    let late = a.active && ltb p.config.ack_timeout_ms (elapsed now a.ping_sent_ms) in
    let r : Result = if late then ack_timeout p a.target_node now else (p, []) in
    Becomes-trans (Doubted now) (Doubted now) (Doubted now) p.view r.0.view
      (check_acks rest r.0 now).1.0.view (Doubted-trans now)
      (if-Becomes (Doubted now) p.view late _ _ (λ _. ack_timeout-Becomes p a.target_node now)
        λ _. Becomes-refl (Doubted now) p.view (λ x. inl refl))
      (check_acks-Becomes rest r.0 now)

-- The id of a cell leads to its member, where no two have the same id.
get_member-cell :
    (ms : List Member) (i : ℕ) (m : Member)
    → Distinct ms
    → get_elem? ms i ≡ some m
    → get_member ms m.node_id ≡ some m
unfolding get_member
get_member-cell [] i m d e = absurd cc
get_member-cell (x ∷ ms) zero m d e = let is_m : x ≡ m = cc in rw (← is_m, ==_refl x.node_id) refl
get_member-cell (x ∷ ms) (suc i) m d e =
    let rest = get_member-cell ms i m d.1 e in
    elim (Bool-cases (x.node_id == m.node_id)) [
      | inl hit ↦ absurd (
          let clash : get_member ms x.node_id ≡ get_member ms m.node_id =
            ap (get_member ms) ((==_iff x.node_id m.node_id).0 hit) in
          let gone = d.0 in cc)
      | inr miss ↦ rw miss rest
    ]

check_member-Becomes :
    (i : ℕ) (p : Protocol) (now : ℕ)
    → Valid p.view
    → Becomes (Buried p.config.dead_timeout_ms now) p.view (check_member i p now).0.view
unfolding check_member
check_member-Becomes i p now valid =
    let timeout = p.config.dead_timeout_ms in
    let stay : Becomes (Buried timeout now) p.view p.view =
      Becomes-refl (Buried timeout now) p.view (λ x. inl refl) in
    elim (Option-cases (get_elem? p.view.members i)) [
      | inl n ↦ rw (n, check_member) stay
      | inr (m, g) ↦
          let at_id : get p.view m.node_id ≡ some m =
            get_member-cell p.view.members i m valid.0 g in
          rw (g, check_member)
            (if-Becomes (Buried timeout now) p.view (is_expired p m now) _ _
              (λ late.
                update_status-Becomes (Buried timeout now) p.view m.node_id dead now m at_id
                  (λ x. inl refl) (inr (ground arith, ground arith, refl)))
              λ _. stay)
    ]

check_member-config : (i : ℕ) (p : Protocol) (now : ℕ) → (check_member i p now).0.config ≡ p.config
unfolding check_member
check_member-config i p now = elim (Option-cases (get_elem? p.view.members i)) [
  | inl n ↦ rw (n, check_member) refl
  | inr (m, g) ↦ elim (Bool-cases (is_expired p m now)) [
    | inl late ↦ rw (g, check_member, late) refl
    | inr early ↦ rw (g, check_member, early) refl
  ]
]

check_suspects-Becomes :
    (n i : ℕ) (p : Protocol) (now timeout : ℕ)
    → Valid p.view
    → p.config.dead_timeout_ms ≡ timeout
    → Becomes (Buried timeout now) p.view (check_suspects n i p now).0.view
unfolding check_suspects
check_suspects-Becomes zero i p now timeout valid e =
    Becomes-refl (Buried timeout now) p.view (λ x. inl refl)
check_suspects-Becomes (suc n) i p now timeout valid e =
    let q = (check_member i p now).0 in
    let R = Buried timeout now in
    let config : q.config.dead_timeout_ms ≡ timeout =
      ap Config.dead_timeout_ms (check_member-config i p now) ∙ e in
    Becomes-trans R R R p.view q.view (check_suspects n (i + 1) q now).0.view
      (Buried-trans timeout now)
      (subst (λ t. Becomes (Buried t now) p.view q.view) e (check_member-Becomes i p now valid))
      (check_suspects-Becomes n (i + 1) q now timeout
        (GossipReach-Valid (check_member-Reaches i p now).view valid) config)

ack_timeout-config : (p : Protocol) (node now : ℕ) → (ack_timeout p node now).0.config ≡ p.config
unfolding ack_timeout
ack_timeout-config p node now = elim (Option-cases (get p.view node)) [
  | inl n ↦ rw (n, ack_timeout) refl
  | inr (m, g) ↦ elim (Bool-cases (is_alive m.status)) [
    | inl up ↦ rw (g, ack_timeout, up) refl
    | inr other ↦ rw (g, ack_timeout, other) refl
  ]
]

check_acks-config :
    (acks : List PendingAck) (p : Protocol) (now : ℕ)
    → (check_acks acks p now).1.0.config ≡ p.config
unfolding check_acks
check_acks-config [] p now = refl
check_acks-config (a ∷ rest) p now =
    elim (Bool-cases (a.active && ltb p.config.ack_timeout_ms (elapsed now a.ping_sent_ms))) [
      | inl late ↦
          rw (late, check_acks)
            (check_acks-config rest (ack_timeout p a.target_node now).0 now
              ∙ ack_timeout-config p a.target_node now)
      | inr early ↦ rw (early, check_acks) (check_acks-config rest p now)
    ]

-- What one check makes of a member.
abbrev pub Checked : ℕ → ℕ → Member → Member → Type 0
Checked timeout now old new = Doubted now old new ⊎ Buried timeout now old new

-- A member that this check doubts is not buried by it.
Checked-join :
    (timeout now : ℕ) (a b c : Member)
    → now < 2 ^ 64
    → Doubted now a b
    → Buried timeout now b c
    → Checked timeout now a c
unfolding with_status
Checked-join timeout now a b c small d (inl e) = inl (subst (Doubted now a) (sym e) d)
Checked-join timeout now a b c small (inl e) (inr r) =
    inr (subst (λ (x : Member). Buried timeout now x c) e (inr r))
Checked-join timeout now a b c small (inr (s, e)) (inr (s', l, e')) = absurd (
    let fresh : b.last_seen_ms ≡ now = ap Member.last_seen_ms e ∙ ground arith in
    let none_passed : elapsed now b.last_seen_ms ≡ 0 = rw fresh (omega arith) in omega arith)

-- One timeout check, over a view of distinct ids, leaves every member known, with its incarnation: it
-- is as it was, or was alive and is now suspected, or had been suspected for longer than the dead
-- timeout and is now dead.
pub check_timeouts-Checked :
    (p : Protocol) (now k : ℕ) (old : Member)
    → Valid p.view
    → now < 2 ^ 64
    → get p.view k ≡ some old
    → (new : Member) × (get (check_timeouts p now).0.view k ≡ some new)
      × Checked p.config.dead_timeout_ms now old new
unfolding check_timeouts
check_timeouts-Checked p now k old valid small g =
    let timeout = p.config.dead_timeout_ms in
    let s = check_acks p.pending_acks p now in
    let q : Protocol = record (s.1.0) { pending_acks = s.0 } in
    let n = length q.view.members in
    Becomes-trans (Doubted now) (Buried timeout now) (Checked timeout now) p.view q.view
      (check_suspects n 0 q now).0.view (λ a b c x y. Checked-join timeout now a b c small x y)
      (check_acks-Becomes p.pending_acks p now)
      (check_suspects-Becomes n 0 q now timeout
        (GossipReach-Valid (check_acks-Reaches p.pending_acks p now).view valid)
        (ap Config.dead_timeout_ms (check_acks-config p.pending_acks p now)))
      k old g
