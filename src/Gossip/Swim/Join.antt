-- ===== src/Gossip/Swim/Join.antt =====
-- A node that joins through a seed, both running src/gossip/protocol.
use e_roole.Prelude.{
  ℕ, ◌<◌, ◌≡◌, ◌≢◌, inl, inr, refl, ap, subst, ◌∙◌, ◌&&◌, true, false, List, [], ◌∷◌, none, some,
  length, leb, ltb, ==_refl, ne→==, lt→ltb, arith, Bool-cases,
}
use e_roole.Cluster.View.{Member, alive, is_alive, is_suspect, is_dead, with_status, get}
use e_roole.Cluster.View.Lookup.{get-add, get-update_status}
use e_roole.Gossip.Types.{Update, Message, blank_update, cells, msg_join}
use e_roole.Gossip.Swim.{Protocol, sends, Result, each, member_of, message_from, ip_copy}
use e_roole.Gossip.Swim.Handlers.{
  retold, received, announce, handle_message, dispatch, self_update, is_known, handle_ping,
  ping_update, send_ack, send_cluster_snapshot, greet,
}
use e_roole.Gossip.Swim.Rounds.{add_seed}

-- What a node knows of another that it greeted.
abbrev pub Joined : Protocol → ℕ → ℕ → ℕ → Type 0
Joined q id incarnation type =
    (new : Member) × (get q.view id ≡ some new)
    × (new.status ≡ alive)
    × (new.incarnation ≡ incarnation)
    × (new.node_type ≡ type)
    × (new.data_port ≡ 0)

greet-Joined :
    (q : Protocol) (id : ℕ) (ip : List ℕ) (port now : ℕ)
    → get q.view id ≡ none
    → length q.view.members < q.view.capacity
    → Joined (greet q id ip port now).0 id 0 q.my_type
unfolding greet
greet-Joined q id ip port now n room =
    let u = record blank_update {
      node_id = id;
      node_type = q.my_type;
      ip_address = ip_copy ip;
      gossip_port = port;
      timestamp_ms = now;
    } in
    let m = member_of u alive now in
    (
      m,
      rw (==_refl id, n, lt→ltb (length q.view.members) q.view.capacity room) at
          (get-add q.view m now id),
      refl,
      refl,
      refl,
      refl,
    )

announce-view : (p : Protocol) (old : Member) (u : Update) → (announce p old u).0.view ≡ p.view
announce-view p old u = elim (Bool-cases (is_suspect u.status && is_alive old.status)) [
  | inl a ↦ rw a refl
  | inr a ↦ elim (Bool-cases (is_dead u.status)) [
    | inl b ↦ rw (a, b) refl
    | inr b ↦ elim (Bool-cases (is_alive u.status)) [
      | inl c ↦ rw (a, b, c) refl
      | inr c ↦ rw (a, b, c) refl
    ]
  ]
]

-- The node's own update, after the greeting.
ping_update-Joined :
    (now : ℕ) (q : Protocol) (u : Update) (type : ℕ)
    → u.status ≡ alive
    → Joined q u.node_id 0 type
    → Joined (ping_update now q u).0 u.node_id u.incarnation type
unfolding ping_update with_status
ping_update-Joined now q u type s (old, g, up, zeroth, typed, no_port) =
    let not_back : (is_dead old.status && (is_alive u.status && ltb old.incarnation u.incarnation))
        ≡ false =
      ground arith in
    elim (Bool-cases (ltb old.incarnation u.incarnation)) [
      | inl newer ↦
          let x = received (retold q u u.status now) in
          let current : leb old.incarnation u.incarnation ≡ true = ground arith in
          let new = with_status old u.status u.incarnation now in
          rw (g, ping_update, not_back, newer)
            (
              new,
              ap (λ v. get v u.node_id) (announce-view x old u)
                  ∙ (rw (==_refl u.node_id, g, current) at
                      (get-update_status q.view u.node_id u.status u.incarnation now u.node_id)),
              s,
              refl,
              typed,
              no_port,
            )
      | inr older ↦ rw (g, ping_update, not_back, older) (old, g, up, ground arith, typed, no_port)
    ]

handle_ping-Joined :
    (q : Protocol) (m : Message) (u : Update) (ip : List ℕ) (port now : ℕ)
    → m.sender_id ≡ u.node_id
    → u.status ≡ alive
    → get q.view m.sender_id ≡ none
    → length q.view.members < q.view.capacity
    → Joined (handle_ping q m (u ∷ []) ip port now).0 u.node_id u.incarnation q.my_type
unfolding handle_ping send_cluster_snapshot send_ack each
handle_ping-Joined q m u ip port now from s n room =
    let greeted = (greet q m.sender_id ip port now).0 in
    let hello : Joined greeted u.node_id 0 q.my_type =
      subst (λ id. Joined greeted id 0 q.my_type) from
        (greet-Joined q m.sender_id ip port now n room) in
    rw (n, is_known, handle_ping) (ping_update-Joined now greeted u q.my_type s hello)

-- A node that a seed does not know, and for which the seed's view has room, is known to the seed once
-- the seed has handled the node's JOIN message: as alive and with its own incarnation, but with the
-- seed's type in place of its own, and with data port 0.
pub add_seed-Joined :
    (p q : Protocol) (seed_ip ip : List ℕ) (seed_port port now now' : ℕ)
    → p.my_id ≢ q.my_id
    → get q.view p.my_id ≡ none
    → length q.view.members < q.view.capacity
    → (join : Message) × (r : Result) × ((add_seed p seed_ip seed_port now).1
        ≡ sends join (some seed_ip) seed_port ∷ [])
      × (handle_message q join ip port now' ≡ some r)
      × Joined r.0 p.my_id p.incarnation q.my_type
unfolding add_seed handle_message dispatch cells
add_seed-Joined p q seed_ip ip seed_port port now now' apart n room =
    let u = self_update p now in
    let join = message_from p msg_join (u ∷ []) 1 in
    (
      join,
      handle_ping q join (u ∷ []) ip port now',
      refl,
      rw (ne→== p.my_id q.my_id apart) refl,
      handle_ping-Joined q join u ip port now' refl refl n room,
    )
