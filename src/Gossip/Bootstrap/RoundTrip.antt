-- ===== src/Gossip/Bootstrap/RoundTrip.antt =====
-- Reading back the bootstrap responses of src/gossip/protocol/gossip_serialization.c.
use e_roole.Prelude.{
  ℕ, zero, suc, ◌+◌, ◌-◌, ◌*◌, ◌/◌, ◌^◌, ◌≤◌, ◌<◌, ◌≡◌, ◌⊎◌, inl, inr, refl, subst, List, [], ◌∷◌,
  ◌++◌, none, some, length, length-append, replicate, length-replicate, length-take, drop,
  drop-append, take, take-length, All, min, ltb, le→ltb, arith, Bool-cases, true,
}
use e_roole.Wire.Word.{write_u16, Decodes-read_u16}
use e_roole.Wire.Reader.{
  ok, ◌>>=◌, pure, Decodes, Decodes-bind, Decodes-map, Decodes-read_u8, Decodes-checked,
}
use e_roole.Wire.Text.{text_bytes, IsString, length-text_bytes, take-all}
use e_roole.Gossip.Bootstrap.{
  Router, BootstrapResponse, max_routers, router_cells, router_bytes, serialize_routers,
  serialize_response, string_within, read_address, read_router, read_routers, with_routers,
  read_response, deserialize_response,
}

-- The fields fit the machine type, and the addresses their fields on the wire.
pub record IsRouter (r : Router) : Type 0 where
  pub node_id : r.node_id < 2 ^ 16
  pub gossip_string : IsString r.gossip_addr
  pub gossip_short : length r.gossip_addr ≤ 63
  pub data_string : IsString r.data_addr
  pub data_short : length r.data_addr ≤ 63

-- A string that a NUL ends within reach is read to its end, whatever follows.
string_within-padded :
    (s : List ℕ) (k n : ℕ) (rest : List ℕ)
    → IsString s
    → length s < k
    → string_within k ((s ++ replicate (suc n) 0) ++ rest) ≡ ok s
unfolding string_within
string_within-padded s zero n rest h l = absurd (omega arith)
string_within-padded [] (suc k) n rest h l = refl
string_within-padded (zero ∷ s) (suc k) n rest h l = absurd (h.0 refl)
string_within-padded (suc c ∷ s) (suc k) n rest h l =
    rw (string_within-padded s k n rest h.1 (omega arith)) refl

Decodes-padded_address :
    (s : List ℕ) (n : ℕ)
    → IsString s
    → length s + suc n ≡ 64
    → Decodes read_address s (s ++ replicate (suc n) 0)
unfolding read_address
Decodes-padded_address s n h l = record {
  runs = λ rest.
      let field = s ++ replicate (suc n) 0 in
      let size : length field ≡ 64 =
        omega (arith, length-append s (replicate (suc n) 0), length-replicate {A = ℕ} n 0) in
      let over : drop 64 (field ++ rest) ≡ rest =
        subst (λ m. drop m (field ++ rest) ≡ rest) size (drop-append field rest) in
      rw (read_address, string_within-padded s 255 n rest h (omega arith), over) refl;
}

Decodes-read_address :
    (s : List ℕ) → IsString s → length s ≤ 63 → Decodes read_address s (text_bytes 64 63 s)
unfolding text_bytes
Decodes-read_address s h l =
    let pad : 64 - length s ≡ suc (63 - length s) = omega arith in
    rw (take-all 63 s l, pad) (Decodes-padded_address s (63 - length s) h (omega arith))

length-router_bytes : (r : Router) → IsRouter r → length (router_bytes r) ≡ 130
unfolding router_bytes write_u16
length-router_bytes r h = omega (
  arith,
  length-text_bytes 64 63 r.gossip_addr h.gossip_short (omega arith),
  length-text_bytes 64 63 r.data_addr h.data_short (omega arith),
  length-append (text_bytes 64 63 r.gossip_addr) (text_bytes 64 63 r.data_addr),
)

Decodes-read_router : (r : Router) → IsRouter r → Decodes read_router r (router_bytes r)
unfolding read_router router_bytes
Decodes-read_router r h = Decodes-bind _ (Decodes-read_u16 r.node_id h.node_id) (
    Decodes-bind _ (Decodes-read_address r.gossip_addr h.gossip_string h.gossip_short)
      (Decodes-map _ (Decodes-read_address r.data_addr h.data_string h.data_short)))

unfoldable routers_bytes : List Router → List ℕ
routers_bytes [] = []
routers_bytes (r ∷ rs) = router_bytes r ++ routers_bytes rs

length-routers_bytes :
    (rs : List Router) → All IsRouter rs → length (routers_bytes rs) ≡ length rs * 130
unfolding routers_bytes
length-routers_bytes [] h = refl
length-routers_bytes (r ∷ rs) h = omega (
  arith,
  length-append (router_bytes r) (routers_bytes rs),
  length-router_bytes r h.0,
  length-routers_bytes rs h.1,
)

-- With room for all the routers, all are written.
serialize_routers-all :
    (rs : List Router) (i room : ℕ)
    → length rs * 130 ≤ room
    → serialize_routers rs i room ≡ (routers_bytes rs, none)
unfolding serialize_routers routers_bytes
serialize_routers-all [] i room h = refl
serialize_routers-all (r ∷ rs) i room h =
    rw (serialize_routers-all rs (i + 1) (room - 130) (omega arith), le→ltb room 130 (omega arith))
      refl

-- With room for `k` of them, `k` are written, and the loop stops at the next.
serialize_routers-cut :
    (rs : List Router) (i room k : ℕ)
    → k < length rs
    → k * 130 ≤ room
    → room < k * 130 + 130
    → serialize_routers rs i room ≡ (routers_bytes (take k rs), some (i + k))
unfolding serialize_routers routers_bytes
serialize_routers-cut [] i room k few low high = absurd (omega arith)
serialize_routers-cut (r ∷ rs) i room zero few low high =
    let stop : ltb room 130 ≡ true = ground arith in
    let plain : i + 0 ≡ i = omega arith in rw (stop, plain) refl
serialize_routers-cut (r ∷ rs) i room (suc k) few low high =
    let shift : (i + 1) + k ≡ i + suc k = omega arith in
    rw
      (
        serialize_routers-cut rs (i + 1) (room - 130) k (omega arith) (omega arith) (omega arith),
        le→ltb room 130 (omega arith),
        shift,
      )
      refl

Decodes-read_routers :
    (rs : List Router) → All IsRouter rs → Decodes (read_routers (length rs)) rs (routers_bytes rs)
unfolding read_routers routers_bytes
Decodes-read_routers [] h = record { runs = λ rest. refl }
Decodes-read_routers (r ∷ rs) h = record {
  runs = λ rest.
      let body = router_bytes r ++ routers_bytes rs in
      let long : 130 ≤ length (body ++ rest) = omega (
        arith,
        length-append body rest,
        length-append (router_bytes r) (routers_bytes rs),
        length-router_bytes r h.0,
      ) in
      rw (le→ltb (length (body ++ rest)) 130 long) (
        (Decodes-bind (λ v. read_routers (length rs) >>= λ vs. pure (v ∷ vs))
            (Decodes-read_router r h.0)
            (Decodes-map (λ vs. r ∷ vs) (Decodes-read_routers rs h.1))).runs
          rest);
}

router_cells-length : (rs : List Router) → router_cells (length rs) rs ≡ rs
unfolding router_cells
router_cells-length [] = refl
router_cells-length (r ∷ rs) = rw (router_cells-length rs) refl

All-take : (k : ℕ) (rs : List Router) → All IsRouter rs → All IsRouter (take k rs)
All-take zero rs h = tt
All-take (suc k) [] h = tt
All-take (suc k) (r ∷ rs) h = (h.0, All-take k rs h.1)

-- The count and so many routers are read back as a response of them.
Decodes-read_response :
    (rs : List Router)
    → length rs ≤ max_routers
    → All IsRouter rs
    → Decodes read_response
        (record { num_routers = length rs; routers = rs })
        (length rs ∷ routers_bytes rs)
unfolding read_response
Decodes-read_response rs few valid =
    let bound : length rs ≡ min (length rs) max_routers = omega arith in
    let body : Decodes (read_routers (min (length rs) max_routers)) rs (routers_bytes rs) =
      subst (λ n. Decodes (read_routers n) rs (routers_bytes rs)) bound
        (Decodes-read_routers rs valid) in
    let whole : with_routers (length rs) rs ≡ record { num_routers = length rs; routers = rs } =
      rw (le→ltb (length rs) (min (length rs) max_routers) (omega arith)) refl in
    subst (λ v. Decodes read_response v (length rs ∷ routers_bytes rs)) whole
      (Decodes-bind _ (Decodes-read_u8 (length rs)) (Decodes-map (with_routers (length rs)) body))

-- What the loop writes, and the count before it, are those of the `k` routers that there is room for.
serialize_response-taken :
    (resp : BootstrapResponse) (buffer_size k : ℕ)
    → 1 ≤ buffer_size
    → resp.num_routers ≤ max_routers
    → length resp.routers ≡ resp.num_routers
    → k ≡ min resp.num_routers ((buffer_size - 1) / 130)
    → serialize_response resp buffer_size ≡ some (k ∷ routers_bytes (take k resp.routers))
unfolding serialize_response
serialize_response-taken resp buffer_size k room few filled fits =
    let rs = resp.routers in
    let bound : min resp.num_routers max_routers ≡ length rs = omega arith in
    rw (bound, router_cells-length rs, le→ltb buffer_size 1 room)
      (elim (split) [
        | inl (all, whole) ↦
            rw (serialize_routers-all rs 0 (buffer_size - 1) all, whole, take-length rs, filled)
              refl
        | inr (cut, low, high) ↦
            let plain : 0 + k ≡ k = omega arith in
            rw (serialize_routers-cut rs 0 (buffer_size - 1) k cut low high, plain) refl
      ])
  where
    split :
        ((length resp.routers * 130 ≤ buffer_size - 1) × (k ≡ length resp.routers))
        ⊎ ((k < length resp.routers)
            × (k * 130 ≤ buffer_size - 1)
            × (buffer_size - 1 < k * 130 + 130))
    split = elim (Bool-cases (ltb k (length resp.routers))) [
      | inl less ↦ inr (ground arith, ground arith, ground arith)
      | inr not_less ↦ inl (ground arith, ground arith)
    ]

-- How many routers of a response a buffer has room for.
abbrev pub fitting : BootstrapResponse → ℕ → ℕ
fitting resp buffer_size = min resp.num_routers ((buffer_size - 1) / 130)

-- A response of at most 16 routers, whose ids and addresses fit their fields, is written into a
-- buffer of at least one byte, with as many routers as the buffer has room for, and what is written
-- is read back as the response of those routers, in 130 bytes for each and one for their count.
pub deserialize-serialize_response :
    (resp : BootstrapResponse) (buffer_size : ℕ)
    → 1 ≤ buffer_size
    → resp.num_routers ≤ max_routers
    → length resp.routers ≡ resp.num_routers
    → All IsRouter resp.routers
    → (bytes : List ℕ) × (serialize_response resp buffer_size ≡ some bytes)
      × (length bytes ≡ 1 + fitting resp buffer_size * 130)
      × (deserialize_response bytes
          ≡ ok (record {
            num_routers = fitting resp buffer_size;
            routers = take (fitting resp buffer_size) resp.routers;
          }))
unfolding deserialize_response
deserialize-serialize_response resp buffer_size room few filled valid =
    let k = fitting resp buffer_size in
    let rs = take k resp.routers in
    let valid_part = All-take k resp.routers valid in
    let count : length rs ≡ k = omega (arith, length-take k resp.routers) in
    let read : Decodes read_response (record { num_routers = k; routers = rs })
        (k ∷ routers_bytes rs) =
      subst
        (λ n.
          Decodes read_response (record { num_routers = n; routers = rs }) (n ∷ routers_bytes rs))
        count (Decodes-read_response rs (omega arith) valid_part) in
    (
      k ∷ routers_bytes rs,
      serialize_response-taken resp buffer_size k room few filled refl,
      omega (arith, length-routers_bytes rs valid_part),
      Decodes-checked 1 read (omega arith),
    )
