-- ===== src/Examples/Members.antt =====
-- The cluster view.
use e_roole.Prelude.{ℕ, ◌≡◌, refl, ◌==◌, ltb, [], ◌∷◌, arith, if◌then◌else◌}
use e_roole.Cluster.View.{Member, View, alive, worker, add, remove, get, get_member}
use e_roole.Cluster.View.Lookup.{merged, get-add}
use e_roole.Cluster.View.Keeps.{Valid, ViewReach-Valid, start, step, adds, removes}

abbrev member : ℕ → ℕ → Member
member id incarnation = record {
  node_id = id;
  node_type = worker;
  ip_address = [];
  gossip_port = 7000;
  data_port = 7001;
  status = alive;
  last_seen_ms = 10;
  incarnation = incarnation;
}

abbrev two_members : View
two_members = record { members = member 1 4 ∷ member 2 6 ∷ []; capacity = 3 }

two_members-Valid : Valid two_members
unfolding get_member
two_members-Valid = ((refl, (refl, tt)), omega arith)

get-add_example :
    get (add two_members (member 2 7) 50).1 1
    ≡ (if 1 == 2 then merged (ltb 2 3) (member 2 7) 50 (get two_members 2) else get two_members 1)
get-add_example = get-add two_members (member 2 7) 50 1

ViewReach-Valid_example : Valid (remove (add two_members (member 3 0) 50).1 1).1
ViewReach-Valid_example =
    ViewReach-Valid two_members (remove (add two_members (member 3 0) 50).1 1).1 two_members-Valid
      (step (step start (adds (member 3 0) 50)) (removes 1))
