-- ===== src/Gossip/Swim/Runs.antt =====
-- Runs of the protocol of src/gossip/protocol: messages, rounds and timeouts in any order.
use e_roole.Prelude.{
  ℕ, zero, suc, ◌+◌, ◌≡◌, inl, inr, refl, Bool, true, false, leb, if◌then◌else◌, subst, sym, ap,
  ◌∙◌, ◌⊎◌, ==_iff, ◌&&◌, ◌||◌, not, List, [], ◌∷◌, some, length, get_elem?, ltb, ◌==◌, arith,
  Bool-cases, Option-cases, ◌%◌,
}
use e_roole.Cluster.View.{Member, View, alive, suspect, dead, is_alive, is_dead, seen, get}
use e_roole.Cluster.View.Lookup.{get_member-some, get-add, merged}
use e_roole.Cluster.View.Keeps.{Valid, start, step, adds, ViewReach-Valid}
use e_roole.Gossip.Types.{Message, cells, max_updates}
use e_roole.Gossip.Swim.{Protocol, PendingAck, Result, member_of}
use e_roole.Gossip.Swim.Handlers.{self_update, dispatch, is_handled, handle_message}
use e_roole.Gossip.Swim.Rounds.{
  peer_list, send_ping, run_swim_round, ack_timeout, check_acks, is_expired, check_member,
  check_suspects, check_timeouts, announce_join, announce_leave, add_seed, elapsed,
}
use e_roole.Gossip.Swim.Views.{
  told, same, after, Later, Later-trans, Later-refl, GossipReach-Kept, GossipReach-Valid,
}
use e_roole.Gossip.Swim.Reach.{Reaches, moves, alike, Reaches-append, if-Reaches, dispatch-Reaches}

handle_message-Reaches :
    (p : Protocol) (m : Message) (src_ip : List ℕ) (src_port now : ℕ) (r : Result)
    → handle_message p m src_ip src_port now ≡ some r
    → Reaches p r.0
unfolding handle_message
handle_message-Reaches p m src_ip src_port now r e =
    elim (Bool-cases ((m.sender_id == p.my_id) || not (is_handled m.msg_type))) [
      | inl ignored ↦
          let e' = rw ignored at e in
          let is_r : (p, []) ≡ r = cc in
          subst (λ (q : Result). Reaches p q.0) is_r (moves refl same)
      | inr taken ↦ elim (Bool-cases (ltb max_updates m.num_updates)) [
        | inl over ↦ absurd (let e' = rw (taken, over) at e in cc)
        | inr fits ↦
            let e' = rw (taken, fits) at e in
            let is_r : dispatch p m (cells m.num_updates m.updates) src_ip src_port now ≡ r = cc in
            subst (λ (q : Result). Reaches p q.0) is_r
              (dispatch-Reaches p m (cells m.num_updates m.updates) src_ip src_port now)
      ]
    ]

-- A PING round does not change the view.
run_swim_round-Reaches : (p : Protocol) (roll now : ℕ) → Reaches p (run_swim_round p roll now).0
unfolding run_swim_round send_ping
run_swim_round-Reaches p roll now =
    let peers = peer_list p.my_id p.view.members in
    elim (Option-cases (get_elem? peers (roll % length peers))) [
      | inl n ↦ rw (n, run_swim_round) (moves refl same)
      | inr (target, g) ↦ elim (Option-cases (get p.view target)) [
        | inl n ↦ rw (g, run_swim_round, n) (moves refl same)
        | inr (m, g') ↦ rw (g, run_swim_round, g') (moves refl same)
      ]
    ]

ack_timeout-Reaches : (p : Protocol) (node now : ℕ) → Reaches p (ack_timeout p node now).0
unfolding ack_timeout
ack_timeout-Reaches p node now = elim (Option-cases (get p.view node)) [
  | inl n ↦ rw (n, ack_timeout) (moves refl same)
  | inr (m, g) ↦
      rw (g, ack_timeout)
        (if-Reaches p (is_alive m.status) _ _
          (λ up.
            moves refl
              (after same (told node suspect m.incarnation now m g (inr (inl (ground arith))))))
          λ _. moves refl same)
]

pub check_acks-Reaches :
    (acks : List PendingAck) (p : Protocol) (now : ℕ) → Reaches p (check_acks acks p now).1.0
unfolding check_acks
check_acks-Reaches [] p now = moves refl same
check_acks-Reaches (a ∷ rest) p now =
    let late = a.active && ltb p.config.ack_timeout_ms (elapsed now a.ping_sent_ms) in
    Reaches-append
      (if-Reaches p late _ _ (λ _. ack_timeout-Reaches p a.target_node now) λ _. moves refl same)
      (check_acks-Reaches rest _ now)

pub check_member-Reaches : (i : ℕ) (p : Protocol) (now : ℕ) → Reaches p (check_member i p now).0
unfolding check_member
check_member-Reaches i p now = elim (Option-cases (get_elem? p.view.members i)) [
  | inl n ↦ rw (n, check_member) (moves refl same)
  | inr (m, g) ↦
      let (old, g') = get_member-some p.view.members i m g in
      rw (g, check_member)
        (if-Reaches p (is_expired p m now) _ _
          (λ _.
            moves refl (after same (told m.node_id dead m.incarnation now old g' (inr (inr refl)))))
          λ _. moves refl same)
]

check_suspects-Reaches : (n i : ℕ) (p : Protocol) (now : ℕ) → Reaches p (check_suspects n i p now).0
unfolding check_suspects
check_suspects-Reaches zero i p now = moves refl same
check_suspects-Reaches (suc n) i p now =
    Reaches-append (check_member-Reaches i p now) (check_suspects-Reaches n (i + 1) _ now)

check_timeouts-Reaches : (p : Protocol) (now : ℕ) → Reaches p (check_timeouts p now).0
unfolding check_timeouts
check_timeouts-Reaches p now =
    let s = check_acks p.pending_acks p now in
    let checked : Reaches p (record (s.1.0) { pending_acks = s.0 }) =
      alike (check_acks-Reaches p.pending_acks p now) refl refl in
    Reaches-append checked (check_suspects-Reaches _ 0 _ now)

-- What happens to the protocol of a node.
pub data ProtocolStep (p : Protocol) : Protocol → Type 0 where
  handles :
      (m : Message) (src_ip : List ℕ) (src_port now : ℕ) (r : Result)
      → handle_message p m src_ip src_port now ≡ some r
      → ProtocolStep p r.0
  rounds : (roll now : ℕ) → ProtocolStep p (run_swim_round p roll now).0
  checks : (now : ℕ) → ProtocolStep p (check_timeouts p now).0
  joins : (now : ℕ) → ProtocolStep p (announce_join p now)
  leaves : (now : ℕ) → ProtocolStep p (announce_leave p now).0
  seeds :
      (seed_ip : List ℕ) (seed_port now : ℕ) → ProtocolStep p (add_seed p seed_ip seed_port now).0

pub data ProtocolRun (p : Protocol) : Protocol → Type 0 where
  begin : ProtocolRun p p
  next : {q r : Protocol} → ProtocolRun p q → ProtocolStep q r → ProtocolRun p r

-- A step changes the view by steps of the protocol, or adds the node itself to it.
ProtocolStep-cases :
    {p q : Protocol} → ProtocolStep p q → Reaches p q ⊎ ((now : ℕ) × (q ≡ announce_join p now))
unfolding announce_leave add_seed
ProtocolStep-cases {p} (handles m src_ip src_port now r e) =
    inl (handle_message-Reaches p m src_ip src_port now r e)
ProtocolStep-cases {p} (rounds roll now) = inl (run_swim_round-Reaches p roll now)
ProtocolStep-cases {p} (checks now) = inl (check_timeouts-Reaches p now)
ProtocolStep-cases {p} (joins now) = inr (now, refl)
ProtocolStep-cases {p} (leaves now) = inl (moves refl same)
ProtocolStep-cases {p} (seeds seed_ip seed_port now) = inl (moves refl same)

ProtocolStep-my_id : {p q : Protocol} → ProtocolStep p q → q.my_id ≡ p.my_id
unfolding announce_join
ProtocolStep-my_id x = elim (ProtocolStep-cases x) [
  | inl r ↦ r.id
  | inr (now, e) ↦ ap Protocol.my_id e
]

ProtocolRun-my_id : {p q : Protocol} → ProtocolRun p q → q.my_id ≡ p.my_id
ProtocolRun-my_id begin = refl
ProtocolRun-my_id (next r x) = ProtocolStep-my_id x ∙ ProtocolRun-my_id r

-- What becomes of a member, or of the node's own entry, which may be written anew.
abbrev pub KeptOrOwn : Protocol → View → Member → ℕ → Type 0
KeptOrOwn p w old id = (new : Member) × (get w id ≡ some new) × (Later old new ⊎ (id ≡ p.my_id))

one_of : (b : Bool) (x y : Member) → (z : Member) × ((if b then some x else some y) ≡ some z)
one_of true x y = (x, refl)
one_of false x y = (y, refl)

announce_join-Kept :
    (p : Protocol) (now id : ℕ) (old : Member)
    → get p.view id ≡ some old
    → KeptOrOwn p (announce_join p now).view old id
unfolding announce_join
announce_join-Kept p now id old g =
    let self = member_of (self_update p now) alive now in
    let looked = get-add p.view self now id in
    elim (Bool-cases (id == p.my_id)) [
      | inl own ↦
          let me = (==_iff id p.my_id).0 own in
          let there : get p.view p.my_id ≡ some old = ap (get p.view) (sym me) ∙ g in
          let (new, e) =
            one_of
              ((is_alive self.status && is_dead old.status) || leb old.incarnation self.incarnation)
              (seen self now) old in
          (new, (rw (own, there, merged) at looked) ∙ e, inr me)
      | inr other ↦ (old, (rw other at looked) ∙ g, inl (Later-refl old))
    ]

ProtocolStep-Kept :
    {p q : Protocol} (id : ℕ) (old : Member)
    → ProtocolStep p q
    → get p.view id ≡ some old
    → KeptOrOwn p q.view old id
ProtocolStep-Kept {p} {q} id old x g = elim (ProtocolStep-cases x) [
  | inl r ↦ let (new, g', l) = GossipReach-Kept p.view q.view id old r.view g in (new, g', inl l)
  | inr (now, e) ↦
      subst (λ (s : Protocol). KeptOrOwn p s.view old id) (sym e)
        (announce_join-Kept p now id old g)
]

-- Over any run of messages received, PING rounds, timeout checks, announcements of joining and of
-- leaving, and seeds added, whatever the messages say, a member that the node knew it knows still; and
-- unless it is the node's own entry, its incarnation does not fall, and if the member was dead and is
-- not dead any more, its incarnation has risen.
pub ProtocolRun-Kept :
    (p q : Protocol) (id : ℕ) (old : Member)
    → ProtocolRun p q
    → get p.view id ≡ some old
    → KeptOrOwn p q.view old id
ProtocolRun-Kept p q id old begin g = (old, g, inl (Later-refl old))
ProtocolRun-Kept p q id old (next {q = u} r x) g =
    let (mid, g', l) = ProtocolRun-Kept p u id old r g in
    let (new, g'', l') = ProtocolStep-Kept id mid x g' in
    (new, g'', Later-join old mid new l l' (ProtocolRun-my_id r))
  where
    Later-join :
        (a b c : Member)
        → Later a b ⊎ (id ≡ p.my_id)
        → Later b c ⊎ (id ≡ u.my_id)
        → u.my_id ≡ p.my_id
        → Later a c ⊎ (id ≡ p.my_id)
    Later-join a b c (inr own) k same_id = inr own
    Later-join a b c (inl l) (inr own) same_id = inr (own ∙ same_id)
    Later-join a b c (inl l) (inl k) same_id = inl (Later-trans a b c l k)

-- Over any such run, the members of the view keep different ids and stay within its capacity.
pub ProtocolRun-Valid : (p q : Protocol) → Valid p.view → ProtocolRun p q → Valid q.view
unfolding announce_join
ProtocolRun-Valid p q h begin = h
ProtocolRun-Valid p q h (next {q = u} r x) =
    let valid = ProtocolRun-Valid p u h r in
    elim (ProtocolStep-cases x) [
      | inl step_r ↦ GossipReach-Valid step_r.view valid
      | inr (now, e) ↦
          subst (λ (s : Protocol). Valid s.view) (sym e)
            (ViewReach-Valid u.view (announce_join u now).view valid
              (step start (adds (member_of (self_update u now) alive now) now)))
    ]
