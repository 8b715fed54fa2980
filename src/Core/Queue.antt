-- ===== src/Core/Queue.antt =====
-- The bounded queue of src/core/event_bus.c. The array has `capacity` cells. A wait for space or for
-- an event is over when the queue is given here; a push that would wait, and a pop whose wait ends
-- without an event, leave it as it is.
pub mod Ring
pub mod Fifo
use e_roole.Prelude.{
  ℕ, ◌+◌, ◌-◌, ◌%◌, ◌^◌, Bool, true, false, List, Option, none, some, get_elem?, set, leb,
  replicate, ◌==◌, if◌then◌else◌,
}

pub record Queue {ℓ} (A : Type ℓ) : Type ℓ where
  pub events : List A
  pub head : ℕ
  pub tail : ℕ
  pub count : ℕ
  pub capacity : ℕ

module _ {ℓ} {A : Type ℓ} where
  -- `event_queue_init`, where the allocation succeeds; calloc fills the cells with `blank`.
  unfoldable pub init : A → ℕ → Queue A
  init blank capacity = record {
    events = replicate capacity blank;
    head = 0;
    tail = 0;
    count = 0;
    capacity = capacity;
  }

  -- `event_queue_push`: whether the event was put in.
  unfoldable pub push : Queue A → A → Bool × Queue A
  push q e = if leb q.capacity q.count then (false, q) else (
    true,
    record q {
      events = set q.events q.tail e;
      tail = (q.tail + 1) % q.capacity;
      count = q.count + 1;
    },
  )

  -- `event_queue_pop`. Nothing is popped where the head lies outside the array.
  unfoldable pub pop : Queue A → Option (A × Queue A)
  pop q = if q.count == 0 then none else elim (get_elem? q.events q.head) [
    | none ↦ none
    | some e ↦ some (e, record q { head = (q.head + 1) % q.capacity; count = q.count - 1 })
  ]
