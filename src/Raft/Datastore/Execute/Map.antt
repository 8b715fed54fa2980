-- ===== src/Raft/Datastore/Execute/Map.antt =====
-- The store of raft_datastore.c as a map from keys to values, and its commands on it.
use e_roole.Prelude.{
  ℕ, ◌≡◌, ◌≢◌, inl, inr, refl, ◌∙◌, ap, Bool, true, false, List, none, some, length, get_elem?, set,
  if◌then◌else◌, arith, Bool-cases,
}
use e_roole.Slots.{
  Found, Found-find_slot, find_slot-cases, Found-sat, Found-get_elem?, Found-set, Found-set_new,
  find_slot-set_other, find_slot-set-none,
}
use e_roole.Raft.Datastore.Table.{
  Record, Store, holds_key, is_free, find_record, find_free_slot, fetch, fetch_in, strings_equal,
  strings_equal_iff, Unique,
}
use e_roole.Raft.Datastore.Execute.{
  executed, claim, with_value, write_value, up, execute_set, execute_unset,
}

strings_equal_refl : (key : List ℕ) → strings_equal key key ≡ true
strings_equal_refl key = (strings_equal_iff key key).1 refl

differ_ne : (k key : List ℕ) → strings_equal k key ≡ false → k ≢ key
differ_ne k key differ e = let h = (strings_equal_iff k key).1 e in cc

-- A record of one key holds no other.
holds_other : (key k : List ℕ) (r : Record) → k ≢ key → r.key ≡ key → holds_key k r ≡ false
holds_other key k r ne e = elim (Bool-cases (strings_equal r.key k)) [
  | inl same ↦ absurd (ne (let h = (strings_equal_iff r.key k).0 same in cc))
  | inr differ ↦ ground arith
]

fetch_other :
    {q : Record → Bool} {rs : List Record} {i : ℕ} {r : Record} (k : List ℕ) (v : Record)
    → Found q rs i r
    → holds_key k r ≡ false
    → holds_key k v ≡ false
    → fetch_in (set rs i v) k ≡ fetch_in rs k
unfolding fetch_in
fetch_other k v f a b = rw (find_slot-set_other (holds_key k) v f a b, fetch_in) refl

-- The search for the key finds a record with the value.
abbrev pub Stored : Store → List ℕ → List ℕ → Type 0
Stored s key value =
    (i : ℕ) × (r : Record) × (find_record s.records key ≡ some (i, r))
    × (r.value ≡ some value)
    × (r.value_len ≡ length value)

Stored-fetch :
    (s : Store) (key value : List ℕ) → Stored s key value → fetch s key ≡ some (some value)
unfolding fetch_in
Stored-fetch s key value (i, r, e, v, l) = rw (e, fetch_in) (ap some v)

module _ (key value : List ℕ) (alloc : ℕ → Bool) (created updated : ℕ) where
  written :
      {q : Record → Bool} (i : ℕ) (r r' : Record) (s : Store)
      → Found q s.records i r
      → ((v : Record) → holds_key key v ≡ true → Found (holds_key key) (set s.records i v) i v)
      → ((k : List ℕ) → k ≢ key → holds_key k r ≡ false)
      → r'.active ≡ true
      → r'.key ≡ key
      → let (result, s') = write_value i r' value alloc updated s in
        result ≡ executed → Stored s' key value × ((k : List ℕ) → k ≢ key → fetch s' k ≡ fetch s k)
  unfolding write_value find_record
  written i r r' s f at others on same = elim (Bool-cases (alloc (length value))) [
    | inr fails ↦ rw (fails, write_value) (λ e. absurd cc)
    | inl finds ↦
        let v = with_value r' value updated in
        let holds : strings_equal r'.key key ≡ true = (strings_equal_iff r'.key key).1 same in
        rw (finds, write_value)
          (λ e. (
            (i, v, Found-find_slot (at v (ground arith)), refl, refl),
            λ k ne. fetch_other k v f (others k ne) (holds_other key k v ne same),
          ))
  ]

  pub execute_set-Stored :
      (s : Store)
      → let (result, s') = execute_set key value alloc created updated s in
        result ≡ executed → Stored s' key value × ((k : List ℕ) → k ≢ key → fetch s' k ≡ fetch s k)
  unfolding execute_set find_record find_free_slot
  execute_set-Stored s = elim (find_slot-cases (holds_key key) s.records) [
    | inr (i, r, f) ↦
        let held = Found-sat f in
        let same : r.key ≡ key = (strings_equal_iff r.key key).0 (ground arith) in
        rw (Found-find_slot f, execute_set)
          (written i r r s f (λ v. Found-set v f) (λ k ne. holds_other key k r ne same)
            (ground arith) same)
    | inl n ↦ elim (find_slot-cases is_free s.records) [
      | inl full ↦ rw (n, full, execute_set) (λ e. absurd cc)
      | inr (i, r, f) ↦
          let free = Found-sat f in
          rw (n, Found-find_slot f, execute_set)
            (written i r (claim r key created) (record s { count = up s.count }) f
              (λ v. Found-set_new v n f) (λ k ne. ground arith) refl refl)
    ]
  ]

  -- After a SET that is executed the store maps the SET's key to its value, and every other key to
  -- what it mapped it to before.
  pub execute_set-fetch :
      (s : Store) (k : List ℕ)
      → (execute_set key value alloc created updated s).0 ≡ executed
      → fetch (execute_set key value alloc created updated s).1 k
        ≡ (if strings_equal k key then some (some value) else fetch s k)
  execute_set-fetch s k done =
      let s' = (execute_set key value alloc created updated s).1 in
      let (stored, others) = execute_set-Stored s done in
      let at_key = Stored-fetch s' key value stored in
      elim (Bool-cases (strings_equal k key)) [
        | inl same ↦ rw same (ap (fetch s') ((strings_equal_iff k key).0 same) ∙ at_key)
        | inr differ ↦ rw differ (others k (differ_ne k key differ))
      ]

execute_unset-both :
    (key : List ℕ) (s : Store)
    → Unique s.records
    → let s' = (execute_unset key s).1 in
      (fetch s' key ≡ none) × ((k : List ℕ) → k ≢ key → fetch s' k ≡ fetch s k)
unfolding execute_unset find_record fetch_in
execute_unset-both key s unique = elim (find_slot-cases (holds_key key) s.records) [
  | inl n ↦ rw (n, execute_unset) (rw (n, fetch_in) refl, λ k ne. refl)
  | inr (i, r, f) ↦
      let v = record r { value = none; active = false } in
      let held = Found-sat f in
      let same : r.key ≡ key = (strings_equal_iff r.key key).0 (ground arith) in
      let only : (j : ℕ) (y : Record)
          → get_elem? s.records j ≡ some y
          → holds_key key y ≡ true
          → j ≡ i =
        λ j y g h.
          let k = (strings_equal_iff y.key key).0 (ground arith) in
          unique j i y r g (Found-get_elem? f) (ground arith) (ground arith) cc in
      rw (Found-find_slot f, execute_unset)
        (
          rw (find_slot-set-none (holds_key key) s.records i v only refl, fetch_in) refl,
          λ k ne. fetch_other k v f (holds_other key k r ne same) refl,
        )
]

-- After an UNSET the store maps its key to nothing, and every other key to what it mapped it to
-- before, if no two records in use have the same key.
pub execute_unset-fetch :
    (key : List ℕ) (s : Store) (k : List ℕ)
    → Unique s.records
    → fetch (execute_unset key s).1 k ≡ (if strings_equal k key then none else fetch s k)
execute_unset-fetch key s k unique =
    let s' = (execute_unset key s).1 in
    let (at_key, others) = execute_unset-both key s unique in
    elim (Bool-cases (strings_equal k key)) [
      | inl same ↦ rw same (ap (fetch s') ((strings_equal_iff k key).0 same) ∙ at_key)
      | inr differ ↦ rw differ (others k (differ_ne k key differ))
    ]
