-- ===== src/Rpc/Server/Active.antt =====
-- The connections in use of src/rpc/server/rpc_server.c, and their counter.
use e_roole.Prelude.{
  ℕ, zero, suc, ◌+◌, ◌^◌, ◌≤◌, ◌<◌, ◌≡◌, inl, inr, refl, sym, subst, ◌∙◌, Bool, true, false, List,
  [], ◌∷◌, some, length, length-set, set, get_elem?, replicate, if◌then◌else◌, arith,
}
use e_roole.Slots.{get_elem?-set}
use e_roole.Rpc.Server.{Server, plus_u64}
use e_roole.Rpc.Server.Connections.{Connection, Listener}

abbrev pub one_if : Bool → ℕ
one_if b = if b then 1 else 0

-- How many connections are in use.
abbrev pub count_active : List Connection → ℕ
count_active [] = 0
count_active (c ∷ cs) = one_if c.active + count_active cs

pub count_active-set :
    (cs : List Connection) (i : ℕ) (c v : Connection)
    → get_elem? cs i ≡ some c
    → count_active (set cs i v) + one_if c.active ≡ count_active cs + one_if v.active
count_active-set [] i c v g = absurd cc
count_active-set (x ∷ cs) zero c v g = let same : x ≡ c = cc in rw same (omega arith)
count_active-set (x ∷ cs) (suc i) c v g = omega (arith, count_active-set cs i c v g)

pub count_active-le : (cs : List Connection) → count_active cs ≤ length cs
count_active-le [] = omega arith
count_active-le (c ∷ cs) = ground (arith, count_active-le cs)

pub count_active-replicate :
    (n : ℕ) (c : Connection) → c.active ≡ false → count_active (replicate n c) ≡ 0
count_active-replicate zero c h = refl
count_active-replicate (suc n) c h = ground (arith, count_active-replicate n c h)

pub plus_if :
    (b : Bool) (n max : ℕ)
    → n + one_if b ≤ max
    → max < 2 ^ 64
    → (if b then plus_u64 n 1 else n) ≡ n + one_if b
plus_if true n max h small = omega arith
plus_if false n max h small = omega arith

-- The counter is right, and a connection in use has room for a byte, so that recv is not asked for
-- none, which would return 0 as if the peer had closed.
pub record IsCounted {S : Type 0} (size max : ℕ) (w : Listener S) : Type 0 where
  pub counted : w.active_connections ≡ count_active w.connections
  pub cells : length w.connections ≡ max
  pub buffer : w.server.buffer_size ≡ size
  pub room :
      (i : ℕ) (c : Connection)
      → get_elem? w.connections i ≡ some c
      → c.active ≡ true
      → length c.rx < size

module _ {S : Type 0} {size max : ℕ} where
  -- A connection is written over, and the counter follows.
  pub IsCounted-set :
      (w : Listener S) (i n : ℕ) (c v : Connection) (s : Server S)
      → IsCounted size max w
      → get_elem? w.connections i ≡ some c
      → n + one_if c.active ≡ w.active_connections + one_if v.active
      → s.buffer_size ≡ size
      → (v.active ≡ true → length v.rx < size)
      → IsCounted size max
          (record { server = s; connections = set w.connections i v; active_connections = n })
  IsCounted-set w i n c v s h g count same room = record {
    counted = omega (arith, h.counted, count_active-set w.connections i c v g);
    cells = length-set w.connections i v ∙ h.cells;
    buffer = same;
    room = λ j x gx used. elim (get_elem?-set w.connections i j v x gx) [
      | inl (_, e) ↦
          subst (λ y. length y.rx < size) (sym e) (room (subst (λ y. y.active ≡ true) e used))
      | inr (_, old) ↦ h.room j x old used
    ];
  }
