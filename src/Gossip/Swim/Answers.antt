-- ===== src/Gossip/Swim/Answers.antt =====
-- What one node makes of another's messages, both running src/gossip/protocol.
use e_roole.Prelude.{
  ◌∙◌, ℕ, ◌+◌, ◌^◌, ◌≤◌, ◌<◌, ◌≡◌, ◌≢◌, inl, inr, refl, ap, subst, ◌&&◌, true, List, [], ◌∷◌, none,
  some, leb, ltb, ==_refl, ne→==, lt→ltb, le→ltb, arith, Bool-cases,
}
use e_roole.Cluster.View.{Member, alive, suspect, dead, is_alive, is_dead, with_status, get}
use e_roole.Cluster.View.Lookup.{get-update_status}
use e_roole.Gossip.Types.{Update, Message, blank_update, cells, msg_suspect, msg_alive, msg_leave}
use e_roole.Gossip.Swim.{
  Protocol, Effect, sends, tells_alive, Result, and_next, each, next_u64, message_from,
}
use e_roole.Gossip.Swim.Handlers.{
  retold, handle_message, dispatch, handle_suspect, suspect_update, refute, self_update,
  handle_alive, alive_update, is_known, handle_ping, ping_update, send_ack,
}
use e_roole.Gossip.Swim.Rounds.{announce_leave}

-- A SUSPECT message of one update is handled as that update.
handle_message-suspect :
    (p : Protocol) (m : Message) (u : Update) (src_ip : List ℕ) (src_port now : ℕ)
    → m.sender_id ≢ p.my_id
    → m.msg_type ≡ msg_suspect
    → m.num_updates ≡ 1
    → m.updates ≡ u ∷ []
    → u.node_id ≡ p.my_id
    → u.status ≡ suspect
    → handle_message p m src_ip src_port now ≡ some (refute p now)
unfolding handle_message dispatch handle_suspect suspect_update each cells
handle_message-suspect p m u src_ip src_port now other t n us id s =
    rw (ne→== m.sender_id p.my_id other, t, n, us, s, id, ==_refl p.my_id) refl

-- An ALIVE message of one update with a later incarnation is taken over.
handle_message-alive :
    (q : Protocol) (m : Message) (u : Update) (old : Member) (src_ip : List ℕ) (src_port now : ℕ)
    → m.sender_id ≢ q.my_id
    → m.msg_type ≡ msg_alive
    → m.num_updates ≡ 1
    → m.updates ≡ u ∷ []
    → get q.view u.node_id ≡ some old
    → old.incarnation < u.incarnation
    → handle_message q m src_ip src_port now
      ≡ some (retold q u alive now, tells_alive u.node_id u ∷ [])
unfolding handle_message dispatch handle_alive alive_update each cells
handle_message-alive q m u old src_ip src_port now other t n us g newer =
    rw
      (
        ne→== m.sender_id q.my_id other,
        t,
        n,
        us,
        g,
        alive_update,
        lt→ltb old.incarnation u.incarnation newer,
      )
      refl

-- What becomes of a member that a node tells the others is alive.
abbrev pub Refuted : Protocol → ℕ → ℕ → Type 0
Refuted q id incarnation =
    (new : Member) × (get q.view id ≡ some new)
    × (new.status ≡ alive)
    × (new.incarnation ≡ incarnation)

retold-Refuted :
    (q : Protocol) (u : Update) (now : ℕ) (old : Member)
    → get q.view u.node_id ≡ some old
    → old.incarnation < u.incarnation
    → Refuted (retold q u alive now) u.node_id u.incarnation
unfolding with_status
retold-Refuted q u now old g newer =
    let current : leb old.incarnation u.incarnation ≡ true = ground arith in
    (
      with_status old alive u.incarnation now,
      rw (==_refl u.node_id, g, current) at
          (get-update_status q.view u.node_id alive u.incarnation now u.node_id),
      refl,
      refl,
    )

-- A node that is told in a SUSPECT message that it is suspected answers with one message to all
-- peers, and a peer that handles the answer has the node alive again, with the incarnation that
-- follows the node's own, if the peer knew the node with at most the node's own incarnation.
pub suspected-Refuted :
    (p q : Protocol) (m : Message) (u : Update) (old : Member) (ip ip' : List ℕ)
    (port port' now now' : ℕ)
    → m.sender_id ≢ p.my_id
    → m.msg_type ≡ msg_suspect
    → m.num_updates ≡ 1
    → m.updates ≡ u ∷ []
    → u.node_id ≡ p.my_id
    → u.status ≡ suspect
    → p.incarnation + 1 < 2 ^ 64
    → p.my_id ≢ q.my_id
    → get q.view p.my_id ≡ some old
    → old.incarnation ≤ p.incarnation
    → (p' q' : Protocol) × (answer : Message) × (told : List Effect) × (handle_message p m ip port
          now
        ≡ some (p', sends answer none 0 ∷ []))
      × (p'.incarnation ≡ p.incarnation + 1)
      × (handle_message q answer ip' port' now' ≡ some (q', told))
      × Refuted q' p.my_id (p.incarnation + 1)
unfolding refute
suspected-Refuted p q m u old ip ip' port port' now now' other t n us id s small apart g known =
    let up = record p { incarnation = next_u64 p.incarnation } in
    let v = self_update up now in
    let bumped : next_u64 p.incarnation ≡ p.incarnation + 1 = omega arith in
    let answer = message_from up msg_alive (v ∷ []) 1 in
    (
      (refute p now).0,
      retold q v alive now',
      answer,
      tells_alive v.node_id v ∷ [],
      handle_message-suspect p m u ip port now other t n us id s,
      bumped,
      handle_message-alive q answer v old ip' port' now' apart refl refl refl g (omega arith),
      subst (Refuted (retold q v alive now') p.my_id) bumped
          (retold-Refuted q v now' old g (omega arith)),
    )

-- News that is not of a later incarnation changes nothing.
ping_update-old :
    (now : ℕ) (q : Protocol) (u : Update) (old : Member)
    → get q.view u.node_id ≡ some old
    → u.incarnation ≤ old.incarnation
    → ping_update now q u ≡ (q, [])
unfolding ping_update
ping_update-old now q u old g known =
    let stale = le→ltb old.incarnation u.incarnation known in
    elim (Bool-cases
      (is_dead old.status && (is_alive u.status && ltb old.incarnation u.incarnation))) [
        | inl back ↦ absurd (ground arith)
        | inr not_back ↦ rw (g, ping_update, not_back, stale) refl
      ]

handle_ping-quiet :
    (q : Protocol) (m : Message) (us : List Update) (old : Member) (ip : List ℕ) (port now : ℕ)
    → get q.view m.sender_id ≡ some old
    → each (ping_update now) us q ≡ (q, [])
    → handle_ping q m us ip port now ≡ send_ack q ip port now
unfolding handle_ping
handle_ping-quiet q m us old ip port now g quiet =
    rw (g, is_known, handle_ping)
      (ap (λ (r : Result). and_next (and_next r λ x. (x, [])) λ x. send_ack x ip port now) quiet)

send_ack-view :
    (q : Protocol) (ip : List ℕ) (port now : ℕ) → (send_ack q ip port now).0.view ≡ q.view
unfolding send_ack
send_ack-view q ip port now = refl

-- A node that receives the LEAVE message of a member that it knows, not as dead, with at least the
-- member's own incarnation only acknowledges it: its view stays as it was, and the member is in it, not
-- dead.
pub leave-view :
    (p q : Protocol) (old : Member) (ip : List ℕ) (port now now' : ℕ)
    → p.my_id ≢ q.my_id
    → get q.view p.my_id ≡ some old
    → p.incarnation ≤ old.incarnation
    → old.status ≢ dead
    → (left : Message) × ((announce_leave p now).1 ≡ sends left none 0 ∷ [])
      × (handle_message q left ip port now' ≡ some (send_ack q ip port now'))
      × ((send_ack q ip port now').0.view ≡ q.view)
      × ((new : Member) × (get (send_ack q ip port now').0.view p.my_id ≡ some new)
          × (new.status ≢ dead))
unfolding announce_leave handle_message dispatch each cells
leave-view p q old ip port now now' apart g known lives =
    let u = record blank_update {
      node_id = p.my_id;
      status = dead;
      incarnation = p.incarnation;
      timestamp_ms = now;
    } in
    let left = message_from p msg_leave (u ∷ []) 1 in
    let quiet : each (ping_update now') (u ∷ []) q ≡ (q, []) =
      ap (λ (r : Result). and_next r λ x. (x, [])) (ping_update-old now' q u old g known) in
    (
      left,
      refl,
      rw (ne→== p.my_id q.my_id apart)
          (ap some (handle_ping-quiet q left (u ∷ []) old ip port now' g quiet)),
      send_ack-view q ip port now',
      (old, ap (λ v. get v p.my_id) (send_ack-view q ip port now') ∙ g, lives),
    )
