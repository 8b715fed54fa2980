-- ===== src/Core/Queue/Fifo.antt =====
-- The queue of src/core/event_bus.c is a bounded first-in first-out queue.
use e_roole.Prelude.{
  ℕ, ◌<◌, ◌≡◌, inl, inr, refl, ap, sym, ◌∙◌, Bool, true, false, List, [], ◌∷◌, ◌++◌, Option, none,
  some, length, leb, ◌==◌, if◌then◌else◌, arith, Bool-cases, length-replicate,
}
use e_roole.Core.Queue.{Queue, init, push, pop}
use e_roole.Core.Queue.Ring.{Valid, contents, window, push-Valid, pop-Valid, length-contents}

-- What an operation on the queue answers: whether an event was put in, or the event taken.
pub data Answer (A : Type 0) : Type 0 where
  put_in : Bool → Answer A
  taken : Option A → Answer A

-- An operation: an event to push, or a pop.
abbrev pub queue_step : {A : Type 0} → Queue A → Option A → Answer A × Queue A
queue_step q (some e) = let r = push q e in (put_in r.0, r.1)
queue_step q none = elim (pop q) [ none ↦ (taken none, q) | some (e, q') ↦ (taken (some e), q') ]

-- The same on the list of the events held, of which there are at most `capacity`.
abbrev pub list_step : {A : Type 0} → ℕ → List A → Option A → Answer A × List A
list_step capacity xs (some e) =
    if leb capacity (length xs) then (put_in false, xs) else (put_in true, xs ++ (e ∷ []))
list_step capacity [] none = (taken none, [])
list_step capacity (x ∷ xs) none = (taken (some x), xs)

-- The answers of a sequence of operations.
abbrev pub queue_run : {A : Type 0} → Queue A → List (Option A) → List (Answer A)
queue_run q [] = []
queue_run q (o ∷ os) = let r = queue_step q o in r.0 ∷ queue_run r.1 os

abbrev pub list_run : {A : Type 0} → ℕ → List A → List (Option A) → List (Answer A)
list_run capacity xs [] = []
list_run capacity xs (o ∷ os) = let r = list_step capacity xs o in r.0 ∷ list_run capacity r.1 os

-- A queue that is not empty hands out the front of its contents.
queue_step-pop :
    {A : Type 0} (q : Queue A)
    → Valid q
    → Valid (queue_step q none).1
      × ((queue_step q none).0 ≡ (list_step q.capacity (contents q) none).0)
      × (contents (queue_step q none).1 ≡ (list_step q.capacity (contents q) none).1)
      × ((queue_step q none).1.capacity ≡ q.capacity)
unfolding pop
queue_step-pop q v = elim (Bool-cases (q.count == 0)) [
  | inl empty ↦
      let nothing : q.count ≡ 0 = ground arith in
      let none_held : contents q ≡ [] = ap (window q.capacity q.events q.head) nothing in
      rw (empty, queue_step)
        (v, rw (none_held, list_step) refl, rw (none_held, list_step) refl, refl)
  | inr some_left ↦
      let (e, q', popped, v', held, size) = pop-Valid q v (ground arith) in
      rw (popped, queue_step) (v', rw (held, list_step) refl, rw (held, list_step) refl, size)
]

queue_step-push :
    {A : Type 0} (q : Queue A) (e : A)
    → Valid q
    → Valid (queue_step q (some e)).1
      × ((queue_step q (some e)).0 ≡ (list_step q.capacity (contents q) (some e)).0)
      × (contents (queue_step q (some e)).1 ≡ (list_step q.capacity (contents q) (some e)).1)
      × ((queue_step q (some e)).1.capacity ≡ q.capacity)
unfolding push
queue_step-push q e v =
    let held = length-contents q v in
    elim (Bool-cases (leb q.capacity q.count)) [
      | inl full ↦
          let full' : leb q.capacity (length (contents q)) ≡ true = rw held full in
          rw (full, queue_step, list_step, full') (v, refl, refl, refl)
      | inr room ↦
          let room' : leb q.capacity (length (contents q)) ≡ false = rw held room in
          let (done, v', now) = push-Valid q e v (ground arith) in
          (
            v',
            ap put_in done ∙ sym (rw room' refl),
            now ∙ sym (rw room' refl),
            rw (room, queue_step) refl,
          )
    ]

-- Whatever events are pushed and popped, in whatever order, a queue whose array has its capacity and
-- whose indices fit answers as the list of the events that it holds, oldest first: a push is refused
-- exactly when the list has as many events as the capacity, and puts its event last else; a pop
-- takes the first event, if there is one.
pub queue_run-list_run :
    {A : Type 0} (q : Queue A) (ops : List (Option A))
    → Valid q
    → queue_run q ops ≡ list_run q.capacity (contents q) ops
queue_run-list_run q [] v = refl
queue_run-list_run q (some e ∷ ops) v =
    let (v', same, now, size) = queue_step-push q e v in
    rw (same, queue_run, list_run)
      (ap (◌∷◌ (list_step q.capacity (contents q) (some e)).0) (
        queue_run-list_run (queue_step q (some e)).1 ops v'
        ∙ ap (λ n. list_run n (contents (queue_step q (some e)).1) ops) size
        ∙ ap (λ xs. list_run q.capacity xs ops) now))
queue_run-list_run q (none ∷ ops) v =
    let (v', same, now, size) = queue_step-pop q v in
    rw (same, queue_run, list_run)
      (ap (◌∷◌ (list_step q.capacity (contents q) none).0) (
        queue_run-list_run (queue_step q none).1 ops v'
        ∙ ap (λ n. list_run n (contents (queue_step q none).1) ops) size
        ∙ ap (λ xs. list_run q.capacity xs ops) now))

pub init-Valid :
    {A : Type 0} (blank : A) (capacity : ℕ) → 0 < capacity → Valid (init blank capacity)
unfolding init
init-Valid blank capacity h = record {
  cells = length-replicate capacity blank;
  head = h;
  tail = h;
  count = omega arith;
  follows = inl refl;
}
