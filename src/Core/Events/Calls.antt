-- ===== src/Core/Events/Calls.antt =====
-- Which handlers src/core/event_bus.c calls after a subscription and after its end.
use e_roole.Prelude.{
  ℕ, ◌≡◌, ◌≢◌, inl, inr, refl, ap, sym, ◌∙◌, ◌&&◌, not, Bool, true, false, List, [], ◌∷◌, ◌++◌,
  some, set, ◌==◌, if◌then◌else◌, arith, Bool-cases, Option-cases, subst, length, leb, ◌||◌,
  get_elem?-set_same, get_elem?-set_other,
}
use e_roole.Slots.{Found, here, there, Found-find_slot, Found-sat, find_slot-cases}
use e_roole.Core.Events.{
  Bus, Event, event_types, row, subscribe, unsubscribe, dispatch, Subscriber, is_free,
  is_handled_by, add_subscriber, remove_subscriber, calls,
}

-- One list is another with `x` put in somewhere.
abbrev pub Inserted : ℕ × ℕ → List (ℕ × ℕ) → List (ℕ × ℕ) → Type 0
Inserted x before after = (xs ys : List (ℕ × ℕ)) × (before ≡ xs ++ ys) × (after ≡ xs ++ (x ∷ ys))

Inserted-behind :
    (y x : ℕ × ℕ) (before after : List (ℕ × ℕ))
    → Inserted x before after
    → Inserted x (y ∷ before) (y ∷ after)
Inserted-behind y x before after (xs, ys, e, e') = (y ∷ xs, ys, ap (◌∷◌ y) e, ap (◌∷◌ y) e')

-- A cell that makes no call is overwritten by one that makes one.
calls-set :
    {p : Subscriber → Bool} {cells : List Subscriber} {i : ℕ} {s : Subscriber} (v : Subscriber)
    → Found p cells i s
    → (s.active && not (s.handler == 0)) ≡ false
    → (v.active && not (v.handler == 0)) ≡ true
    → Inserted (v.handler, v.user_data) (calls cells) (calls (set cells i v))
unfolding calls
calls-set v (here {x} {xs} h) quiet loud = rw (quiet, loud) ([], calls xs, refl, refl)
calls-set v (there {x} {y} {xs} {i} h f) quiet loud =
    let rest = calls-set v f quiet loud in
    elim (Bool-cases (x.active && not (x.handler == 0))) [
      | inl c ↦ rw c (
          Inserted-behind (x.handler, x.user_data) (v.handler, v.user_data) (calls xs)
            (calls (set xs i v)) rest)
      | inr n ↦ rw n rest
    ]

-- The reverse: a cell that makes a call is cleared.
calls-clear :
    {p : Subscriber → Bool} {cells : List Subscriber} {i : ℕ} {s : Subscriber} (v : Subscriber)
    → Found p cells i s
    → (s.active && not (s.handler == 0)) ≡ true
    → (v.active && not (v.handler == 0)) ≡ false
    → Inserted (s.handler, s.user_data) (calls (set cells i v)) (calls cells)
unfolding calls
calls-clear v (here {x} {xs} h) loud quiet = rw (loud, quiet) ([], calls xs, refl, refl)
calls-clear v (there {x} {y} {xs} {i} h f) loud quiet =
    let rest = calls-clear v f loud quiet in
    elim (Bool-cases (x.active && not (x.handler == 0))) [
      | inl c ↦ rw c (
          Inserted-behind (x.handler, x.user_data) (y.handler, y.user_data) (calls (set xs i v))
            (calls xs) rest)
      | inr n ↦ rw n rest
    ]

add_subscriber-calls :
    (cells cells' : List Subscriber) (handler user_data : ℕ)
    → handler ≢ 0
    → add_subscriber cells handler user_data ≡ some cells'
    → Inserted (handler, user_data) (calls cells) (calls cells')
unfolding add_subscriber
add_subscriber-calls cells cells' handler user_data given e = elim (find_slot-cases is_free cells) [
  | inl n ↦ absurd (let e' = rw (n, add_subscriber) at e in cc)
  | inr (i, s, f) ↦
      let e' = rw (Found-find_slot f, add_subscriber) at e in
      let v : Subscriber = record { handler = handler; user_data = user_data; active = true } in
      let written : set cells i v ≡ cells' = cc in
      let free = Found-sat f in
      subst (λ cs. Inserted (handler, user_data) (calls cells) (calls cs)) written
        (calls-set v f (ground arith) (ground arith))
]

dispatch-calls :
    (b : Bus) (e : Event)
    → (dispatch b e).0 ≡ (if leb event_types e.type then [] else calls (row b e.type))
unfolding dispatch
dispatch-calls b e = elim (Bool-cases (leb event_types e.type)) [
  | inl out ↦ rw out refl
  | inr known ↦ rw known refl
]

-- What is called when the cells of one type are replaced.
dispatch-replaced :
    (b : Bus) (cells : List Subscriber) (e e' : Event)
    → length b.subscribers ≡ event_types
    → leb event_types e.type ≡ false
    → e'.type ≢ e.type
    → let after = record b { subscribers = set b.subscribers e.type cells } in
      ((dispatch after e).0 ≡ calls cells)
      × ((dispatch b e).0 ≡ calls (row b e.type))
      × ((dispatch after e').0 ≡ (dispatch b e').0)
dispatch-replaced b cells e e' rows known other =
    let after = record b { subscribers = set b.subscribers e.type cells } in
    let new_row : row after e.type ≡ cells =
      rw (row, get_elem?-set_same b.subscribers e.type cells (ground arith)) refl in
    let old_row : row after e'.type ≡ row b e'.type =
      rw (row, get_elem?-set_other b.subscribers e.type e'.type cells other) refl in
    (
      dispatch-calls after e ∙ (rw (known, new_row) refl),
      dispatch-calls b e ∙ (rw known refl),
      dispatch-calls after e'
          ∙ ap (λ r. if leb event_types e'.type then [] else calls r) old_row
          ∙ sym (dispatch-calls b e'),
    )

-- A handler subscribed to a type of event is called once more for each event of that type, with its
-- data, and the other calls keep their order; events of other types make the calls that they made.
pub subscribe-dispatch :
    (b b' : Bus) (handler user_data : ℕ) (e e' : Event)
    → length b.subscribers ≡ event_types
    → subscribe b e.type handler user_data ≡ (true, b')
    → e'.type ≢ e.type
    → Inserted (handler, user_data) (dispatch b e).0 (dispatch b' e).0
      × ((dispatch b' e').0 ≡ (dispatch b e').0)
unfolding subscribe
subscribe-dispatch b b' handler user_data e e' rows done other =
    elim (Bool-cases ((handler == 0) || leb event_types e.type)) [
      | inl bad ↦ absurd (let d = rw bad at done in cc)
      | inr good ↦ elim (Option-cases (add_subscriber (row b e.type) handler user_data)) [
        | inl n ↦ absurd (let d = rw (good, n) at done in cc)
        | inr (cells, a) ↦
            let d = rw (good, a) at done in
            let is_b : record b { subscribers = set b.subscribers e.type cells } ≡ b' = cc in
            let (now, before, others) = dispatch-replaced b cells e e' rows (ground arith) other in
            let inserted =
              add_subscriber-calls (row b e.type) cells handler user_data (ground arith) a in
            subst
              (λ x.
                Inserted (handler, user_data) (dispatch b e).0 (dispatch x e).0
                × ((dispatch x e').0 ≡ (dispatch b e').0))
              is_b (rw (now, before) inserted, others)
      ]
    ]

remove_subscriber-calls :
    (cells cells' : List Subscriber) (handler : ℕ)
    → handler ≢ 0
    → remove_subscriber cells handler ≡ some cells'
    → (user_data : ℕ) × Inserted (handler, user_data) (calls cells') (calls cells)
unfolding remove_subscriber
remove_subscriber-calls cells cells' handler given e =
    elim (find_slot-cases (is_handled_by handler) cells) [
      | inl n ↦ absurd (let e' = rw (n, remove_subscriber) at e in cc)
      | inr (i, s, f) ↦
          let e' = rw (Found-find_slot f, remove_subscriber) at e in
          let v : Subscriber = record { handler = 0; user_data = 0; active = false } in
          let written : set cells i v ≡ cells' = cc in
          let hit = Found-sat f in
          let same : s.handler ≡ handler = ground arith in
          (
            s.user_data,
            subst (λ cs. Inserted (handler, s.user_data) (calls cs) (calls cells)) written
                (rw (← same) (calls-clear v f (ground arith) refl)),
          )
    ]

-- A handler that unsubscribes from a type of event is called once less for each event of that type,
-- and the other calls keep their order; events of other types make the calls that they made.
pub unsubscribe-dispatch :
    (b b' : Bus) (handler : ℕ) (e e' : Event)
    → length b.subscribers ≡ event_types
    → unsubscribe b e.type handler ≡ (true, b')
    → e'.type ≢ e.type
    → ((user_data : ℕ) × Inserted (handler, user_data) (dispatch b' e).0 (dispatch b e).0)
      × ((dispatch b' e').0 ≡ (dispatch b e').0)
unfolding unsubscribe
unsubscribe-dispatch b b' handler e e' rows done other =
    elim (Bool-cases ((handler == 0) || leb event_types e.type)) [
      | inl bad ↦ absurd (let d = rw bad at done in cc)
      | inr good ↦ elim (Option-cases (remove_subscriber (row b e.type) handler)) [
        | inl n ↦ absurd (let d = rw (good, n) at done in cc)
        | inr (cells, a) ↦
            let d = rw (good, a) at done in
            let is_b : record b { subscribers = set b.subscribers e.type cells } ≡ b' = cc in
            let (now, before, others) = dispatch-replaced b cells e e' rows (ground arith) other in
            let (user_data, removed) =
              remove_subscriber-calls (row b e.type) cells handler (ground arith) a in
            subst
              (λ x.
                ((u : ℕ) × Inserted (handler, u) (dispatch x e).0 (dispatch b e).0)
                × ((dispatch x e').0 ≡ (dispatch b e').0))
              is_b ((user_data, rw (now, before) removed), others)
      ]
    ]
