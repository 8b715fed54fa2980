-- ===== src/Gossip/Swim/Reach.antt =====
-- Each received message of src/gossip/protocol/message_handlers.c changes the view by steps of
-- the relation of Gossip.Swim.Views only.
use e_roole.Prelude.{
  ℕ, ◌≡◌, ◌∙◌, inl, inr, refl, sym, subst, ◌&&◌, not, Bool, true, false, List, [], ◌∷◌, none, some,
  leb, ltb, ◌==◌, if◌then◌else◌, arith, Bool-cases, Option-cases,
}
use e_roole.Cluster.View.{Member, alive, suspect, dead, is_alive, is_suspect, is_dead, get}
use e_roole.Gossip.Types.{Update, Message, msg_ack, msg_suspect, msg_alive}
use e_roole.Gossip.Swim.{next_u64, remove_pending_ack, Protocol, Result, each, member_of}
use e_roole.Gossip.Swim.Handlers.{
  greet, send_cluster_snapshot, send_ack, announce, retold, discover, received, ping_update,
  is_known, handle_ping, recover, ack_update, handle_ack, suspect_update, refute, alive_update,
  dead_update, handle_suspect, handle_alive, handle_dead, dispatch, is_ping,
}
use e_roole.Gossip.Swim.Views.{
  Allowed, meets, revives, told, GossipReach, same, after, GossipReach-append,
}

-- From one protocol state to another, the node's id stays, and the view changes by steps of the
-- protocol.
pub record Reaches (p q : Protocol) : Type 0 where
  pub id : q.my_id ≡ p.my_id
  pub view : GossipReach p.view q.view

pub moves : {p q : Protocol} → q.my_id ≡ p.my_id → GossipReach p.view q.view → Reaches p q
moves e r = record { id = e; view = r }

-- What else the state keeps does not matter.
pub alike : {p q r : Protocol} → Reaches p q → r.my_id ≡ q.my_id → r.view ≡ q.view → Reaches p r
alike {p} a e v = record { id = e ∙ a.id; view = subst (GossipReach p.view) (sym v) a.view }

pub Reaches-append : {p q r : Protocol} → Reaches p q → Reaches q r → Reaches p r
Reaches-append a b = record { id = b.id ∙ a.id; view = GossipReach-append a.view b.view }

each-Reaches :
    (f : Protocol → Update → Result)
    → ((p : Protocol) (u : Update) → Reaches p (f p u).0)
    → (us : List Update) (p : Protocol) → Reaches p (each f us p).0
unfolding each
each-Reaches f h [] p = moves refl same
each-Reaches f h (u ∷ us) p = Reaches-append (h p u) (each-Reaches f h us (f p u).0)

-- Both branches of a test.
pub if-Reaches :
    (p : Protocol) (b : Bool) (q r : Result)
    → (b ≡ true → Reaches p q.0)
    → (b ≡ false → Reaches p r.0)
    → Reaches p (if b then q else r).0
if-Reaches p true q r h k = h refl
if-Reaches p false q r h k = k refl

-- News of a member of an incarnation that is not dead, or later, or of its death.
retold-Reaches :
    (p : Protocol) (u : Update) (status now : ℕ) (old : Member)
    → get p.view u.node_id ≡ some old
    → Allowed old status u.incarnation
    → Reaches p (retold p u status now)
retold-Reaches p u status now old g a =
    moves refl (after same (told u.node_id status u.incarnation now old g a))

discover-Reaches :
    (p : Protocol) (u : Update) (now : ℕ)
    → get p.view u.node_id ≡ none
    → Reaches p (discover p u now).0
discover-Reaches p u now n = moves refl (after same (meets (member_of u u.status now) now n))

announce-Reaches :
    (p q : Protocol) (old : Member) (u : Update) → Reaches p q → Reaches p (announce q old u).0
announce-Reaches p q old u r =
    if-Reaches p (is_suspect u.status && is_alive old.status) _ _ (λ _. alike r refl refl)
      λ _.
        if-Reaches p (is_dead u.status) _ _ (λ _. alike r refl refl)
          λ _.
            if-Reaches p (is_alive u.status) _ _ (λ _. alike r refl refl) (λ _. alike r refl refl)

ping_update-Reaches : (now : ℕ) (p : Protocol) (u : Update) → Reaches p (ping_update now p u).0
unfolding ping_update
ping_update-Reaches now p u = elim (Option-cases (get p.view u.node_id)) [
  | inl n ↦ rw (n, ping_update) (discover-Reaches p u now n)
  | inr (old, g) ↦
      rw (g, ping_update)
        (if-Reaches p
          (is_dead old.status && (is_alive u.status && ltb old.incarnation u.incarnation)) _ _
          (λ back.
            moves refl (after same (revives (member_of u alive now) old now g (ground arith))))
          λ _.
            if-Reaches p (ltb old.incarnation u.incarnation) _ _
              (λ newer.
                announce-Reaches p (received (retold p u u.status now)) old u
                  (alike (retold-Reaches p u u.status now old g (inl (ground arith))) refl refl))
              λ _. moves refl same)
]

greet-Reaches :
    (p : Protocol) (id : ℕ) (src_ip : List ℕ) (src_port now : ℕ)
    → get p.view id ≡ none
    → Reaches p (greet p id src_ip src_port now).0
unfolding greet
greet-Reaches p id src_ip src_port now n = moves refl (after same (meets _ now n))

handle_ping-Reaches :
    (p : Protocol) (m : Message) (us : List Update) (src_ip : List ℕ) (src_port now : ℕ)
    → Reaches p (handle_ping p m us src_ip src_port now).0
unfolding handle_ping send_cluster_snapshot send_ack
handle_ping-Reaches p m us src_ip src_port now = elim (Option-cases (get p.view m.sender_id)) [
  | inl n ↦
      rw (n, is_known, handle_ping)
        (alike
          (Reaches-append (greet-Reaches p m.sender_id src_ip src_port now n)
            (each-Reaches (ping_update now) (ping_update-Reaches now) us _))
          refl refl)
  | inr (old, g) ↦
      rw (g, is_known, handle_ping)
        (alike (each-Reaches (ping_update now) (ping_update-Reaches now) us p) refl refl)
]

recover-Reaches : (p : Protocol) (id now : ℕ) → Reaches p (recover p id now)
unfolding recover
recover-Reaches p id now = elim (Option-cases (get p.view id)) [
  | inl n ↦ rw (n, recover) (moves refl same)
  | inr (old, g) ↦ elim (Bool-cases (is_suspect old.status)) [
    | inl s ↦
        rw (g, recover, s)
          (moves refl
            (after same (told id alive old.incarnation now old g (inr (inl (ground arith))))))
    | inr other ↦ rw (g, recover, other) (moves refl same)
  ]
]

ack_update-Reaches : (now : ℕ) (p : Protocol) (u : Update) → Reaches p (ack_update now p u).0
unfolding ack_update
ack_update-Reaches now p u = elim (Option-cases (get p.view u.node_id)) [
  | inl n ↦ rw (n, ack_update) (discover-Reaches p u now n)
  | inr (old, g) ↦
      rw (g, ack_update)
        (if-Reaches p (ltb old.incarnation u.incarnation) _ _
          (λ newer. alike (retold-Reaches p u u.status now old g (inl (ground arith))) refl refl)
          λ _. moves refl same)
]

suspect_update-Reaches :
    (now : ℕ) (p : Protocol) (u : Update) → Reaches p (suspect_update now p u).0
unfolding suspect_update refute
suspect_update-Reaches now p u =
    if-Reaches p (not (is_suspect u.status)) _ _ (λ _. moves refl same)
      λ _.
        if-Reaches p (u.node_id == p.my_id) _ _ (λ _. moves refl same)
          λ _. elim (Option-cases (get p.view u.node_id)) [
            | inl n ↦ rw n (moves refl same)
            | inr (old, g) ↦ rw g (
                if-Reaches p (leb old.incarnation u.incarnation && is_alive old.status) _ _
                  (λ hit.
                    alike (retold-Reaches p u suspect now old g (inr (inl (ground arith)))) refl
                      refl)
                  λ _. moves refl same)
          ]

alive_update-Reaches : (now : ℕ) (p : Protocol) (u : Update) → Reaches p (alive_update now p u).0
unfolding alive_update
alive_update-Reaches now p u = elim (Option-cases (get p.view u.node_id)) [
  | inl n ↦ rw (n, alive_update) (moves refl same)
  | inr (old, g) ↦
      rw (g, alive_update)
        (if-Reaches p (ltb old.incarnation u.incarnation) _ _
          (λ newer. alike (retold-Reaches p u alive now old g (inl (ground arith))) refl refl)
          λ _. moves refl same)
]

dead_update-Reaches : (now : ℕ) (p : Protocol) (u : Update) → Reaches p (dead_update now p u).0
unfolding dead_update
dead_update-Reaches now p u = elim (Option-cases (get p.view u.node_id)) [
  | inl n ↦ rw (n, dead_update) (moves refl same)
  | inr (old, g) ↦
      rw (g, dead_update) (alike (retold-Reaches p u dead now old g (inr (inr refl))) refl refl)
]

handle_ack-Reaches :
    (p : Protocol) (m : Message) (us : List Update) (now : ℕ) → Reaches p (handle_ack p m us now).0
unfolding handle_ack
handle_ack-Reaches p m us now =
    let acked = record p {
      pending_acks = (remove_pending_ack p.pending_acks m.sender_id).1;
      stats = record (p.stats) { acks_received = next_u64 p.stats.acks_received };
    } in
    let start : Reaches p acked = moves refl same in
    Reaches-append start (
      Reaches-append (recover-Reaches acked m.sender_id now)
        (each-Reaches (ack_update now) (ack_update-Reaches now) us (recover acked m.sender_id now)))

pub dispatch-Reaches :
    (p : Protocol) (m : Message) (us : List Update) (src_ip : List ℕ) (src_port now : ℕ)
    → Reaches p (dispatch p m us src_ip src_port now).0
unfolding dispatch handle_ack handle_suspect handle_alive handle_dead
dispatch-Reaches p m us src_ip src_port now =
    if-Reaches p (is_ping m.msg_type) _ _ (λ _. handle_ping-Reaches p m us src_ip src_port now)
      λ _.
        if-Reaches p (m.msg_type == msg_ack) _ _ (λ _. handle_ack-Reaches p m us now)
          λ _.
            if-Reaches p (m.msg_type == msg_suspect) _ _
              (λ _.
                alike (each-Reaches (suspect_update now) (suspect_update-Reaches now) us p) refl
                  refl)
              λ _.
                if-Reaches p (m.msg_type == msg_alive) _ _
                  (λ _.
                    alike (each-Reaches (alive_update now) (alive_update-Reaches now) us p) refl
                      refl)
                  (λ _.
                    alike (each-Reaches (dead_update now) (dead_update-Reaches now) us p) refl refl)
