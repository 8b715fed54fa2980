-- ===== src/Core/Events/Count.antt =====
-- The statistics of src/core/event_bus.c over runs of publishers and the dispatch thread.
use e_roole.Prelude.{
  ℕ, ◌+◌, ◌%◌, ◌^◌, ◌≡◌, some, leb, ◌==◌, get_elem?, List, [], ◌∷◌, ◌++◌, length, Bool, true, false,
  not, ◌&&◌, none, if◌then◌else◌,
}
use e_roole.Core.Queue.{Queue, pop}
use e_roole.Core.Events.{Bus, Event, Subscriber, event_types, publish, publish_sync, dispatch_next}

-- Every event published was dropped, is in the queue, or is one of the `handed` events.
abbrev pub Accounted : ℕ → Bus → Type 0
Accounted handed b = b.events_published ≡ (b.events_dropped + b.queue.count + handed) % 2 ^ 64

-- A run, with the events that it takes to the subscribers and the calls of handlers that the code
-- makes, the last ones first: publications, and rounds of the thread that find an event.
pub data BusRun (b : Bus) : List Event → List (ℕ × ℕ) → Bus → Type 0 where
  begin : BusRun b [] [] b
  publishes :
      {es : List Event} {cs : List (ℕ × ℕ)} {c : Bus} (e : Event)
      → BusRun b es cs c
      → BusRun b es cs (publish c e).1
  publishes_sync :
      {es : List Event} {cs : List (ℕ × ℕ)} {c : Bus} (e : Event)
      → BusRun b es cs c
      → BusRun b (e ∷ es) ((publish_sync c e).0 ++ cs) (publish_sync c e).1
  dispatches :
      {es : List Event} {cs : List (ℕ × ℕ)} {c : Bus} (e : Event) (q : Queue Event)
      → BusRun b es cs c
      → pop c.queue ≡ some (e, q)
      → BusRun b (e ∷ es) ((dispatch_next c).0 ++ cs) (dispatch_next c).1

-- The cells in use whose handler is not NULL.
abbrev listens : Subscriber → Bool
listens s = s.active && not (s.handler == 0)

abbrev listeners : List Subscriber → List (ℕ × ℕ)
listeners [] = []
listeners (s ∷ rest) = elim (listens s) [
  | true ↦ (s.handler, s.user_data) ∷ listeners rest
  | false ↦ listeners rest
]

-- The subscribers of an event in a table; an event of no known type has none.
abbrev pub listeners_of : List (List Subscriber) → Event → List (ℕ × ℕ)
listeners_of rows e =
    if leb event_types e.type
    then []
    else (elim (get_elem? rows e.type) [ none ↦ [] | some cells ↦ listeners cells ])

-- One call for each subscriber of each event.
abbrev pub all_listeners : List (List Subscriber) → List Event → List (ℕ × ℕ)
all_listeners rows [] = []
all_listeners rows (e ∷ es) = listeners_of rows e ++ all_listeners rows es

-- What holds after a run that began in `b`.
pub record IsDispatched (b : Bus) (es : List Event) (cs : List (ℕ × ℕ)) (c : Bus) : Type 0 where
  pub accounted : Accounted (length es) c
  pub called : cs ≡ all_listeners b.subscribers es
  pub counted : c.events_dispatched ≡ (b.events_dispatched + length cs) % 2 ^ 64
  pub kept : c.subscribers ≡ b.subscribers
