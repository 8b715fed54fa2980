-- ===== src/Core/Queue/Ring.antt =====
-- The ring of cells of the queue of src/core/event_bus.c, and what is in it.
use e_roole.Prelude.{
  ℕ, zero, suc, ◌+◌, ◌-◌, ◌%◌, ◌≤◌, ◌<◌, ◌≡◌, ◌≢◌, ◌⊎◌, inl, inr, refl, ap, sym, ◌∙◌, true, false,
  List, [], ◌∷◌, ◌++◌, none, some, get_elem?, get_elem?-some, get_elem?-set_other,
  get_elem?-set_same, set, length, length-set, leb, ltb, ◌==◌, arith, Bool-cases, lt→leb, subst,
}
use native.Mathlib.Nat.{mod-eq_of_lt, mod_self}
use e_roole.Core.Queue.{Queue, push, pop}

-- The next index of a ring of `size` cells.
wrap_cases :
    (size i : ℕ)
    → i < size
    → ((i + 1 < size) × ((i + 1) % size ≡ i + 1)) ⊎ ((i + 1 ≡ size) × ((i + 1) % size ≡ 0))
wrap_cases size i h = elim (Bool-cases (ltb (i + 1) size)) [
  | inl inside ↦ inl (ground arith, mod-eq_of_lt (ground arith))
  | inr last ↦ let e : i + 1 ≡ size = ground arith in inr (e, rw e (mod_self size))
]

module _ (size : ℕ) where
  -- `t` is the cell that follows the `n` from `i`.
  abbrev pub Follows : ℕ → ℕ → ℕ → Type 0
  Follows i n t = (t ≡ i + n) ⊎ (t + size ≡ i + n)

  Follows-next :
      (i n t : ℕ)
      → i < size
      → t < size
      → Follows i (suc n) t
      → (((i + 1) % size) < size) × Follows ((i + 1) % size) n t
  Follows-next i n t hi ht f = elim (wrap_cases size i hi) [
    | inl (l, e) ↦ elim f [
      | inl a ↦ (omega arith, inl (omega arith))
      | inr a ↦ (omega arith, inr (omega arith))
    ]
    | inr (l, e) ↦ elim f [
      | inl a ↦ absurd (omega arith)
      | inr a ↦ (omega arith, inl (omega arith))
    ]
  ]

module _ {ℓ} {A : Type ℓ} (size : ℕ) where
  -- The `n` elements from index `i` on, around the ring.
  abbrev pub window : List A → ℕ → ℕ → List A
  window es i zero = []
  window es i (suc n) = elim (get_elem? es i) [
    | none ↦ []
    | some e ↦ e ∷ window es ((i + 1) % size) n
  ]

  window-next :
      (es : List A) (i n : ℕ) (e : A)
      → get_elem? es i ≡ some e
      → window es i (suc n) ≡ e ∷ window es ((i + 1) % size) n
  window-next es i n e g = rw (g, window) refl

  -- A write to the cell that follows a window that does not go all the way round extends it.
  window-set_next :
      (es : List A) (v : A) (i n t : ℕ)
      → length es ≡ size
      → i < size
      → t < size
      → n < size
      → Follows size i n t
      → window (set es t v) i (suc n) ≡ window es i n ++ (v ∷ [])
  window-set_next es v i zero t l hi ht hn f =
      let here : i ≡ t = ground arith in
      rw (here, window, get_elem?-set_same es t v (omega arith)) refl
  window-set_next es v i (suc n) t l hi ht hn f =
      let (hi', f') = Follows-next size i n t hi ht f in
      let away : i ≢ t = λ e. ground arith in
      let (e, g) = get_elem?-some es i (omega arith) in
      window-next (set es t v) i (suc n) e (get_elem?-set_other es t i v away ∙ g)
      ∙ ap (◌∷◌ e) (window-set_next es v ((i + 1) % size) n t l hi' ht (omega arith) f')
      ∙ ap (λ xs. xs ++ (v ∷ [])) (sym (window-next es i n e g))

-- The queue's cells are its capacity, its indices lie inside, and the tail follows the last event.
pub record Valid {ℓ} {A : Type ℓ} (q : Queue A) : Type ℓ where
  pub cells : length q.events ≡ q.capacity
  pub head : q.head < q.capacity
  pub tail : q.tail < q.capacity
  pub count : q.count ≤ q.capacity
  pub follows : Follows q.capacity q.head q.count q.tail

-- The events in the queue, the oldest first.
abbrev pub contents {ℓ} : {A : Type ℓ} → Queue A → List A
contents q = window q.capacity q.events q.head q.count

-- Where the tail goes.
push-Follows :
    {A : Type 0} (q : Queue A)
    → Valid q
    → q.count < q.capacity
    → (((q.tail + 1) % q.capacity) < q.capacity)
      × Follows q.capacity q.head (q.count + 1) ((q.tail + 1) % q.capacity)
push-Follows q v room = elim (wrap_cases q.capacity q.tail v.tail) [
  | inl (l, e) ↦
      (omega arith, elim v.follows [ inl a ↦ inl (omega arith) | inr a ↦ inr (omega arith) ])
  | inr (l, e) ↦ (
    omega arith,
    elim v.follows [ inl a ↦ inr (omega arith) | inr a ↦ absurd (let h = v.head in omega arith) ],
  )
]

-- Putting an event into a queue that is not full puts it behind the others.
pub push-Valid :
    {A : Type 0} (q : Queue A) (e : A)
    → Valid q
    → q.count < q.capacity
    → ((push q e).0 ≡ true) × Valid (push q e).1 × (contents (push q e).1 ≡ contents q ++ (e ∷ []))
unfolding push
push-Valid q e v room =
    let space : leb q.capacity q.count ≡ false = lt→leb q.count q.capacity room in
    let one : q.count + 1 ≡ suc q.count = omega arith in
    let (tail', follows') = push-Follows q v room in
    rw space (
      refl,
      record {
        cells = length-set q.events q.tail e ∙ v.cells;
        head = v.head;
        tail = tail';
        count = omega arith;
        follows = follows';
      },
      ap (window q.capacity (set q.events q.tail e) q.head) one
          ∙ window-set_next q.capacity q.events e q.head q.count q.tail v.cells v.head v.tail room
              v.follows,
    )

length-window :
    {A : Type 0} (size : ℕ) (es : List A) (i n : ℕ)
    → length es ≡ size
    → i < size
    → n ≤ size
    → length (window size es i n) ≡ n
length-window size es i zero l hi hn = refl
length-window size es i (suc n) l hi hn =
    let (e, g) = get_elem?-some es i (omega arith) in
    let next : ((i + 1) % size) < size = elim (wrap_cases size i hi) [
      | inl (a, b) ↦ omega arith
      | inr (a, b) ↦ omega arith
    ] in
    ap length (window-next size es i n e g)
    ∙ ap suc (length-window size es ((i + 1) % size) n l next (omega arith))

pub length-contents : {A : Type 0} (q : Queue A) → Valid q → length (contents q) ≡ q.count
length-contents q v = length-window q.capacity q.events q.head q.count v.cells v.head v.count

-- Taking the oldest event.
pub pop-Valid :
    {A : Type 0} (q : Queue A)
    → Valid q
    → 0 < q.count
    → (e : A) × (q' : Queue A) × (pop q ≡ some (e, q'))
      × Valid q'
      × (contents q ≡ e ∷ contents q')
      × (q'.capacity ≡ q.capacity)
unfolding pop
pop-Valid q v some_left =
    let (e, g) = get_elem?-some q.events q.head (omega (arith, v.cells, v.head)) in
    let fewer : q.count ≡ suc (q.count - 1) = omega arith in
    let before : Follows q.capacity q.head (suc (q.count - 1)) q.tail =
      subst (λ n. Follows q.capacity q.head n q.tail) fewer v.follows in
    let (head', follows') =
      Follows-next q.capacity q.head (q.count - 1) q.tail v.head v.tail before in
    let not_empty : (q.count == 0) ≡ false = ground arith in
    let q' = record q { head = (q.head + 1) % q.capacity; count = q.count - 1 } in
    let front : window q.capacity q.events q.head (suc (q.count - 1)) ≡ e ∷ contents q' =
      window-next q.capacity q.events q.head (q.count - 1) e g in
    (
      e,
      q',
      rw (not_empty, g) refl,
      record {
        cells = v.cells;
        head = head';
        tail = v.tail;
        count = omega (arith, v.count);
        follows = follows';
      },
      ap (window q.capacity q.events q.head) fewer ∙ front,
      refl,
    )
