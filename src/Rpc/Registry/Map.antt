-- ===== src/Rpc/Registry/Map.antt =====
-- The map from function ids to handlers that the table of src/rpc/core/handler_registry.c stands for.
use e_roole.Prelude.{
  ℕ, ◌≡◌, ◌≢◌, ◌⊎◌, inl, inr, refl, ap, ◌∙◌, sym, true, false, List, Option, none, some, set, ◌==◌,
  ==_iff, ==_refl, if◌then◌else◌, arith, Bool-cases, get_elem?,
}
use e_roole.Slots.{
  find_slot, Found, Found-find_slot, Found-sat, Found-get_elem?, find_slot-cases, Found-set,
  Found-set_new, find_slot-set_other, find_slot-set-none,
}
use e_roole.Rpc.Registry.{HandlerEntry, Registry, serves, is_free, register, unregister, lookup}

-- What an id leads to in a table.
abbrev pub handler_at : List HandlerEntry → ℕ → Option (ℕ × ℕ)
handler_at es k = elim (find_slot (serves k) es) [
  | none ↦ none
  | some (i, e) ↦ some (e.handler, e.user_context)
]

-- No two active cells have the same id.
abbrev pub Unique : List HandlerEntry → Type 0
Unique es =
    (i j : ℕ) (x y : HandlerEntry)
    → get_elem? es i ≡ some x
    → get_elem? es j ≡ some y
    → x.active ≡ true
    → serves x.func_id y ≡ true
    → i ≡ j

-- A cell that serves one id serves no other.
serves-other :
    (k id : ℕ) (e : HandlerEntry) → (k == id) ≡ false → serves id e ≡ true → serves k e ≡ false
serves-other k id e differ h = ground arith

free-serves : (k : ℕ) (e : HandlerEntry) → is_free e ≡ true → serves k e ≡ false
free-serves k e h = ground arith

-- A write of a cell for `id` where the cell written over served no other id.
handler_at-set :
    (es : List HandlerEntry) (i id k : ℕ) (v : HandlerEntry)
    → Found (serves id) (set es i v) i v
    → ((k == id) ≡ false → find_slot (serves k) (set es i v) ≡ find_slot (serves k) es)
    → handler_at (set es i v) k
      ≡ (if k == id then some (v.handler, v.user_context) else handler_at es k)
handler_at-set es i id k v f others = elim (Bool-cases (k == id)) [
  | inl same ↦
      let at_id : handler_at (set es i v) id ≡ some (v.handler, v.user_context) =
        rw (handler_at, Found-find_slot f) refl in
      rw same (ap (handler_at (set es i v)) ((==_iff k id).0 same) ∙ at_id)
  | inr differ ↦ rw (differ, handler_at, others differ) refl
]

-- After rpc_handler_register with a handler that is not NULL, the id leads to the handler and its
-- context, and every other id leads where it led before; or the registration fails, changes nothing,
-- and neither the id nor a free cell was in the table.
pub lookup-register :
    (r : Registry) (func_id handler user_context k : ℕ)
    → handler ≢ 0
    → (((register r func_id handler user_context).0 ≡ true)
        × (lookup (register r func_id handler user_context).1 k
            ≡ (if k == func_id then some (handler, user_context) else lookup r k)))
      ⊎ ((register r func_id handler user_context ≡ (false, r))
          × (lookup r func_id ≡ none)
          × (find_slot is_free r.handlers ≡ none))
unfolding register lookup
lookup-register r func_id handler user_context k given =
    let real : (handler == 0) ≡ false = ground arith in
    elim (find_slot-cases (serves func_id) r.handlers) [
      | inr (i, e, f) ↦
          let v = record e { handler = handler; user_context = user_context } in
          let hit = Found-sat f in
          rw (real, register, Found-find_slot f)
            (inl (
              refl,
              handler_at-set r.handlers i func_id k v (Found-set v f hit) λ differ.
                  let miss = serves-other k func_id e differ hit in
                  find_slot-set_other (serves k) v f miss miss,
            ))
      | inl n ↦ elim (find_slot-cases is_free r.handlers) [
        | inl full ↦ rw (real, register, n, full) (inr (refl, rw (n, lookup) refl, refl))
        | inr (i, e, f) ↦
            let v : HandlerEntry = record {
              func_id = func_id;
              handler = handler;
              user_context = user_context;
              active = true;
            } in
            let hit : serves func_id v ≡ true = ==_refl func_id in
            rw (real, register, n, Found-find_slot f)
              (inl (
                refl,
                handler_at-set r.handlers i func_id k v (Found-set_new v n f hit) λ differ.
                    find_slot-set_other (serves k) v f (free-serves k e (Found-sat f))
                      (serves-other k func_id v differ hit),
              ))
      ]
    ]

-- After rpc_handler_unregister the id leads to no handler, and every other id leads where it led
-- before, if no two active cells have the same id.
pub lookup-unregister :
    (r : Registry) (func_id k : ℕ)
    → Unique r.handlers
    → lookup (unregister r func_id).1 k ≡ (if k == func_id then none else lookup r k)
unfolding unregister lookup
lookup-unregister r func_id k unique = elim (find_slot-cases (serves func_id) r.handlers) [
  | inl n ↦ elim (Bool-cases (k == func_id)) [
    | inl same ↦
        let at_id : handler_at r.handlers func_id ≡ none = rw (handler_at, n) refl in
        rw (n, unregister, same) (ap (handler_at r.handlers) ((==_iff k func_id).0 same) ∙ at_id)
    | inr differ ↦ rw (n, unregister, differ) refl
  ]
  | inr (i, e, f) ↦
      let v = record e { handler = 0; user_context = 0; active = false } in
      let hit = Found-sat f in
      elim (Bool-cases (k == func_id)) [
        | inl same ↦
            let gone : find_slot (serves k) (set r.handlers i v) ≡ none =
              find_slot-set-none (serves k) r.handlers i v
                (λ j y g h.
                  sym (unique i j e y (Found-get_elem? f) g (ground arith) (ground arith)))
                refl in
            rw (Found-find_slot f, unregister, same, lookup, gone) refl
        | inr differ ↦
            let miss = serves-other k func_id e differ hit in
            rw
              (
                Found-find_slot f,
                unregister,
                differ,
                lookup,
                find_slot-set_other (serves k) v f miss refl,
              )
              refl
      ]
]
