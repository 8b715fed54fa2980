-- ===== src/Raft/Datastore/Execute/Keeps.antt =====
-- The well-formedness of the record table of raft_datastore.c, and when a SET is executed.
use e_roole.Prelude.{
  ℕ, suc, ◌≡◌, ◌≢◌, ◌⊎◌, ◌↔◌, inl, inr, refl, ◌∙◌, ap, sym, subst, Bool, true, false, ◌&&◌, List,
  none, some, length, length-set, get_elem?, set, arith, Bool-cases,
}
use e_roole.Slots.{
  find_slot, Found, here, there, Found-find_slot, find_slot-cases, Found-sat, Found-get_elem?,
  find_slot-none, get_elem?-set,
}
use e_roole.Raft.Datastore.Table.{
  Record, Store, holds_key, is_free, find_record, find_free_slot, strings_equal, strings_equal_iff,
  Unique, Valid, count_active, count_active-length,
}
use e_roole.Raft.Datastore.Command.{Command, set_command, unset_command}
use e_roole.Raft.Datastore.Execute.{
  executed, claim, with_value, write_value, execute_set, execute_unset, execute, up,
}

-- What a write into the cell found does to the number of records in use.
count_active-set_same :
    {q : Record → Bool} {rs : List Record} {i : ℕ} {r : Record} (v : Record)
    → Found q rs i r
    → v.active ≡ r.active
    → count_active (set rs i v) ≡ count_active rs
unfolding count_active
count_active-set_same v (here h) e = rw e refl
count_active-set_same v (there {x} h f) e = let k = count_active-set_same v f e in ground arith

count_active-set_on :
    {q : Record → Bool} {rs : List Record} {i : ℕ} {r : Record} (v : Record)
    → Found q rs i r
    → r.active ≡ false
    → v.active ≡ true
    → count_active (set rs i v) ≡ suc (count_active rs)
unfolding count_active
count_active-set_on v (here h) off on = rw (off, on) refl
count_active-set_on v (there {x} h f) off on =
    let k = count_active-set_on v f off on in ground arith

count_active-set_off :
    {q : Record → Bool} {rs : List Record} {i : ℕ} {r : Record} (v : Record)
    → Found q rs i r
    → r.active ≡ true
    → v.active ≡ false
    → suc (count_active (set rs i v)) ≡ count_active rs
unfolding count_active
count_active-set_off v (here h) on off = rw (on, off) refl
count_active-set_off v (there {x} h f) on off =
    let k = count_active-set_off v f on off in ground arith

-- A write keeps the keys different if no other record in use has the written record's key.
Unique-set :
    (rs : List Record) (i : ℕ) (v : Record)
    → Unique rs
    → (v.active ≡ true
        → (j : ℕ) (r : Record) → get_elem? rs j ≡ some r
        → r.active ≡ true
        → r.key ≡ v.key
        → j ≡ i)
    → Unique (set rs i v)
Unique-set rs i v unique alone a b r q ga gb ra qa e = elim (get_elem?-set rs i a v r ga) [
  | inl (ai, rv) ↦ elim (get_elem?-set rs i b v q gb) [
    | inl (bi, qv) ↦ cc
    | inr (nb, gb') ↦ absurd (
        nb (
          alone (ap (λ (x : Record). x.active) (sym rv) ∙ ra) b q gb' qa
            (sym e ∙ ap (λ (x : Record). x.key) rv)))
  ]
  | inr (na, ga') ↦ elim (get_elem?-set rs i b v q gb) [
    | inl (bi, qv) ↦ absurd (
        na (
          alone (ap (λ (x : Record). x.active) (sym qv) ∙ qa) a r ga' ra
            (e ∙ ap (λ (x : Record). x.key) qv)))
    | inr (nb, gb') ↦ unique a b r q ga' gb' ra qa e
  ]
]

-- In a valid store, the cell found for a key is the only one in use that holds it.
Found-alone :
    (key : List ℕ) (rs : List Record) (i : ℕ) (r : Record)
    → Unique rs
    → Found (holds_key key) rs i r
    → (j : ℕ) (q : Record) → get_elem? rs j ≡ some q
    → q.active ≡ true
    → q.key ≡ r.key
    → j ≡ i
Found-alone key rs i r unique f j q g on e =
    unique j i q r g (Found-get_elem? f) on (let h = Found-sat f in ground arith) e

module _ (value : List ℕ) (alloc : ℕ → Bool) (updated : ℕ) where
  -- A write into a record that is in use.
  write_value-Valid :
      (key : List ℕ) (i : ℕ) (r : Record) (s : Store)
      → Valid s
      → Found (holds_key key) s.records i r
      → Valid (write_value i r value alloc updated s).1
  unfolding write_value
  write_value-Valid key i r s (c, u, l) f = elim (Bool-cases (alloc (length value))) [
    | inl finds ↦
        let v = with_value r value updated in
        rw (finds, write_value)
          (
            sym (count_active-set_same v f refl ∙ sym c),
            Unique-set s.records i v u (λ on. Found-alone key s.records i r u f),
            omega (arith, length-set s.records i v),
          )
    | inr fails ↦
        let v = record r { value = none } in
        rw (fails, write_value)
          (
            sym (count_active-set_same v f refl ∙ sym c),
            Unique-set s.records i v u (λ on. Found-alone key s.records i r u f),
            omega (arith, length-set s.records i v),
          )
  ]

  -- A write into a free cell that is claimed for a key without a record.
  set_new-Valid :
      (key : List ℕ) (i : ℕ) (r v : Record) (s s' : Store)
      → Valid s
      → find_slot (holds_key key) s.records ≡ none
      → Found is_free s.records i r
      → v.active ≡ true
      → v.key ≡ key
      → s'.records ≡ set s.records i v
      → s'.count ≡ up s.count
      → Valid s'
  set_new-Valid key i r v s s' (c, u, l) n f on same e count =
      let off : r.active ≡ false = (let free = Found-sat f in ground arith) in
      let more = count_active-set_on v f off on in
      let sizes = count_active-length (set s.records i v) in
      let kept = length-set s.records i v in
      (
        (let e' = ap count_active e in omega arith),
        subst Unique (sym e) (
            Unique-set s.records i v u λ on' j q g act k. absurd (
              let miss = find_slot-none (holds_key key) s.records j q n g in
              let hit = (strings_equal_iff q.key key).1 (k ∙ same) in
              let m : (q.active && strings_equal q.key key) ≡ false = miss in
              let m' = rw (act, hit) at m in cc)),
        (let e' = ap length e in omega arith),
      )

  write_new-Valid :
      (key : List ℕ) (created i : ℕ) (r : Record) (s : Store)
      → Valid s
      → find_slot (holds_key key) s.records ≡ none
      → Found is_free s.records i r
      → Valid
          (write_value i
            (claim r key created)
            value
            alloc
            updated
            (record s { count = up s.count })).1
  unfolding write_value claim
  write_new-Valid key created i r s valid n f =
      let v = with_value (claim r key created) value updated in
      let w = record (claim r key created) { value = none } in
      let b = record s { count = up s.count } in
      elim (Bool-cases (alloc (length value))) [
        | inl finds ↦
            let s' = record b { records = set s.records i v; total_sets = up s.total_sets } in
            rw (finds, write_value) (set_new-Valid key i r v s s' valid n f refl refl refl refl)
        | inr fails ↦
            let s' = record b { records = set s.records i w } in
            rw (fails, write_value) (set_new-Valid key i r w s s' valid n f refl refl refl refl)
      ]

-- Every command keeps the store valid, whether it is executed or refused, and whatever memory there
-- is: the count is that of the records in use, and no two of these have the same key.
pub execute-Valid :
    (command : Command) (alloc : ℕ → Bool) (created updated : ℕ) (s : Store)
    → Valid s
    → Valid (execute command alloc created updated s).1
unfolding execute execute_set execute_unset find_record find_free_slot
execute-Valid (set_command key value) alloc created updated s valid =
    elim (find_slot-cases (holds_key key) s.records) [
      | inr (i, r, f) ↦
          rw (Found-find_slot f, execute_set)
            (write_value-Valid value alloc updated key i r s valid f)
      | inl n ↦ elim (find_slot-cases is_free s.records) [
        | inl full ↦ rw (n, full, execute_set) valid
        | inr (i, r, f) ↦
            rw (n, Found-find_slot f, execute_set)
              (write_new-Valid value alloc updated key created i r s valid n f)
      ]
    ]
execute-Valid (unset_command key) alloc created updated s (c, u, l) =
    elim (find_slot-cases (holds_key key) s.records) [
      | inl n ↦ rw (n, execute_unset) (c, u, l)
      | inr (i, r, f) ↦
          let v = record r { value = none; active = false } in
          let on : r.active ≡ true = (let held = Found-sat f in ground arith) in
          let fewer = count_active-set_off v f on refl in
          let sizes = count_active-length s.records in
          rw (Found-find_slot f, execute_unset)
            (
              omega arith,
              Unique-set s.records i v u (λ on'. absurd cc),
              omega (arith, length-set s.records i v),
            )
    ]

-- A SET is executed exactly when there is memory for the value, and the key has a record or a cell is
-- free.
pub execute_set-executed_iff :
    (key value : List ℕ) (alloc : ℕ → Bool) (created updated : ℕ) (s : Store)
    → ((execute_set key value alloc created updated s).0 ≡ executed) ↔ (
        (alloc (length value) ≡ true)
        × ((find_record s.records key ≢ none) ⊎ (find_free_slot s.records ≢ none)))
unfolding execute_set write_value
execute_set-executed_iff key value alloc created updated s = ground arith
