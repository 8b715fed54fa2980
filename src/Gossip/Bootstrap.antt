-- ===== src/Gossip/Bootstrap.antt =====
-- src/gossip/protocol/gossip_serialization.c: the bootstrap response, a list of routers. A pointer
-- argument is never NULL, and a string is the list of its characters before the NUL.
pub mod RoundTrip
use e_roole.Prelude.{
  ℕ, zero, suc, ◌+◌, ◌-◌, List, [], ◌∷◌, ◌++◌, Option, none, some, length, drop, ltb, if◌then◌else◌,
  min,
}
use e_roole.Wire.Word.{write_u16, read_u16}
use e_roole.Wire.Reader.{Parsed, ok, fail, fault, Reader, ◌>>=◌, pure, read_u8, checked}
use e_roole.Wire.Text.{text_bytes}

pub record Router : Type 0 where
  pub node_id : ℕ
  pub gossip_addr : List ℕ
  pub data_addr : List ℕ

-- The list `routers` is the first cells of the array of MAX_CONFIG_ROUTERS; the other cells are zero.
pub record BootstrapResponse : Type 0 where
  pub num_routers : ℕ
  pub routers : List Router

-- `MAX_CONFIG_ROUTERS`
abbrev pub max_routers : ℕ
max_routers = 16

-- The first cells of the array, which the loop writes one by one.
unfoldable pub router_cells : ℕ → List Router → List Router
router_cells zero rs = []
router_cells (suc n) [] =
    record { node_id = 0; gossip_addr = []; data_addr = [] } ∷ router_cells n []
router_cells (suc n) (r ∷ rs) = r ∷ router_cells n rs

unfoldable pub router_bytes : Router → List ℕ
router_bytes r =
    write_u16 r.node_id ++ (text_bytes 64 63 r.gossip_addr ++ text_bytes 64 63 r.data_addr)

-- The loop over the routers from index `i`, with `room` bytes left in the buffer: the bytes written,
-- and the index where the loop stops early.
unfoldable pub serialize_routers : List Router → ℕ → ℕ → List ℕ × Option ℕ
serialize_routers [] i room = ([], none)
serialize_routers (r ∷ rs) i room =
    let rest = serialize_routers rs (i + 1) (room - 130) in
    if ltb room 130 then ([], some i) else (router_bytes r ++ rest.0, rest.1)

-- The byte at offset 0, which is written again where the loop stops early.
abbrev pub count_byte : ℕ → Option ℕ → ℕ
count_byte num_routers none = num_routers
count_byte num_routers (some i) = i

-- `gossip_serialize_bootstrap_response`: the bytes written, or `none` for -1.
unfoldable pub serialize_response : BootstrapResponse → ℕ → Option (List ℕ)
unfolding router_cells serialize_routers
serialize_response resp buffer_size =
    let rs = router_cells (min resp.num_routers max_routers) resp.routers in
    let loop = serialize_routers rs 0 (buffer_size - 1) in
    if ltb buffer_size 1 then none else some (count_byte resp.num_routers loop.1 ∷ loop.0)

-- What `strncpy` of `n` characters copies, up to a NUL: it may read on to the end of the buffer.
unfoldable pub string_within : ℕ → List ℕ → Parsed (List ℕ)
string_within zero xs = ok []
string_within (suc n) [] = fault
string_within (suc n) (zero ∷ xs) = ok []
string_within (suc n) (suc c ∷ xs) = elim (string_within n xs) [
  | ok s ↦ ok (suc c ∷ s)
  | fail ↦ fail
  | fault ↦ fault
]

-- An address: `strncpy` of MAX_CONFIG_STRING - 1 characters, from a field of 64 bytes.
unfoldable pub read_address : Reader (List ℕ)
unfolding string_within
read_address xs = elim (string_within 255 xs) [
  | ok s ↦ ok (s, drop 64 xs)
  | fail ↦ fail
  | fault ↦ fault
]

unfoldable pub read_router : Reader Router
unfolding read_address
read_router = do
  node_id ← read_u16
  gossip_addr ← read_address
  data_addr ← read_address
  pure (record { node_id = node_id; gossip_addr = gossip_addr; data_addr = data_addr })

-- The loop that reads up to `n` routers, while the bytes of one are left.
unfoldable pub read_routers : ℕ → Reader (List Router)
read_routers zero xs = ok ([], xs)
read_routers (suc n) xs =
    let more = (do r ← read_router; rs ← read_routers n; pure (r ∷ rs)) in
    if ltb (length xs) 130 then ok ([], xs) else more xs

-- The response with the routers read. Where the loop stopped early the count is theirs.
abbrev pub with_routers : ℕ → List Router → BootstrapResponse
with_routers num_routers rs = record {
  num_routers = if ltb (length rs) (min num_routers max_routers) then length rs else num_routers;
  routers = rs;
}

unfoldable pub read_response : Reader BootstrapResponse
unfolding read_routers
read_response = do
  num_routers ← read_u8
  rs ← read_routers (min num_routers max_routers)
  pure (with_routers num_routers rs)

-- `gossip_deserialize_bootstrap_response`
unfoldable pub deserialize_response : List ℕ → Parsed BootstrapResponse
unfolding read_response
deserialize_response buffer = checked 1 read_response buffer
