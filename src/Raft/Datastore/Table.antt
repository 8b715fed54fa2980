-- ===== src/Raft/Datastore/Table.antt =====
-- The records of raft_datastore.h, their search, and what the store maps a key to. The array
-- `records` has `capacity` cells, and its length is the capacity; a key is its bytes before the
-- NUL, and a value NULL (`none`) or the bytes that were allocated for it.
use e_roole.Prelude.{
  ℕ, zero, suc, ◌≤◌, ◌<◌, ◌^◌, ◌≡◌, ◌↔◌, refl, Bool, true, false, not, ◌&&◌, List, [], ◌∷◌, Option,
  none, some, get_elem?, ◌==◌, ==_iff, length, replicate, arith,
}
use e_roole.Slots.{find_slot}

pub record Record : Type 0 where
  pub key : List ℕ
  pub value : Option (List ℕ)
  pub value_len : ℕ
  pub version : ℕ
  pub created_at_ms : ℕ
  pub updated_at_ms : ℕ
  pub active : Bool

pub record Store : Type 0 where
  pub records : List Record
  pub count : ℕ
  pub total_sets : ℕ
  pub total_gets : ℕ
  pub total_unsets : ℕ

abbrev pub empty_record : Record
empty_record = record {
  key = [];
  value = none;
  value_len = 0;
  version = 0;
  created_at_ms = 0;
  updated_at_ms = 0;
  active = false;
}

-- `raft_datastore_create`, where every allocation and every lock initialisation succeeds.
unfoldable pub create : ℕ → Option Store
create zero = none
create (suc n) = some (record {
  records = replicate (suc n) empty_record;
  count = 0;
  total_sets = 0;
  total_gets = 0;
  total_unsets = 0;
})

-- `strcmp(a, b) == 0`
unfoldable pub strings_equal : List ℕ → List ℕ → Bool
strings_equal [] [] = true
strings_equal [] (b ∷ ys) = false
strings_equal (a ∷ xs) [] = false
strings_equal (a ∷ xs) (b ∷ ys) = (a == b) && strings_equal xs ys

abbrev pub holds_key : List ℕ → Record → Bool
holds_key key r = r.active && strings_equal r.key key

abbrev pub is_free : Record → Bool
is_free r = not r.active

unfoldable pub find_record : List Record → List ℕ → Option (ℕ × Record)
find_record records key = find_slot (holds_key key) records

unfoldable pub find_free_slot : List Record → Option (ℕ × Record)
find_free_slot records = find_slot is_free records

-- What the store holds under a key: `none` for no record, and the record's value else.
unfoldable pub fetch_in : List Record → List ℕ → Option (Option (List ℕ))
unfolding find_record
fetch_in records key = elim (find_record records key) [ none ↦ none | some (i, r) ↦ some r.value ]

abbrev pub fetch : Store → List ℕ → Option (Option (List ℕ))
fetch s key = fetch_in s.records key

pub strings_equal_iff : (a b : List ℕ) → (strings_equal a b ≡ true) ↔ (a ≡ b)
unfolding strings_equal
strings_equal_iff [] [] = (λ e. refl, λ e. refl)
strings_equal_iff [] (b ∷ ys) = (λ e. absurd cc, λ e. absurd cc)
strings_equal_iff (a ∷ xs) [] = (λ e. absurd cc, λ e. absurd cc)
strings_equal_iff (a ∷ xs) (b ∷ ys) =
    let h = strings_equal_iff xs ys in let k = ==_iff a b in ground arith

-- How many records are in use.
unfoldable pub count_active : List Record → ℕ
count_active [] = 0
count_active (r ∷ rs) = elim r.active [ true ↦ suc (count_active rs) | false ↦ count_active rs ]

pub count_active-length : (rs : List Record) → count_active rs ≤ length rs
unfolding count_active
count_active-length [] = omega arith
count_active-length (r ∷ rs) = ground (arith, count_active-length rs)

-- No two records in use have the same key.
abbrev pub Unique : List Record → Type 0
Unique rs =
    (i j : ℕ) (r q : Record)
    → get_elem? rs i ≡ some r
    → get_elem? rs j ≡ some q
    → r.active ≡ true
    → q.active ≡ true
    → r.key ≡ q.key
    → i ≡ j

-- The count is that of the records in use, their keys differ, and the sizes fit a size_t.
abbrev pub Valid : Store → Type 0
Valid s = (s.count ≡ count_active s.records) × Unique s.records × (length s.records < 2 ^ 64)
