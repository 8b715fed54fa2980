-- ===== src/Core/Events.antt =====
-- The subscribers and the publishing of src/core/event_bus.c. A handler is a number, NULL is zero;
-- the bus and the event are not NULL. What a handler does is not part of the bus: a dispatch lists
-- the calls that it makes.
pub mod Calls
pub mod Count
use e_roole.Prelude.{
  ℕ, ◌+◌, ◌%◌, ◌^◌, ◌&&◌, ◌||◌, not, Bool, true, false, List, [], ◌∷◌, Option, none, some,
  get_elem?, set, length, replicate, leb, ◌==◌, if◌then◌else◌,
}
use e_roole.Slots.{find_slot}
use e_roole.Core.Queue.{Queue, init, push, pop}

-- `event_t`; the union is the list of its bytes.
pub record Event : Type 0 where
  pub type : ℕ
  pub timestamp_ms : ℕ
  pub source_node_id : ℕ
  pub data_bytes : List ℕ

pub record Subscriber : Type 0 where
  pub handler : ℕ
  pub user_data : ℕ
  pub active : Bool

-- The table has a row of cells for each event type.
pub record Bus : Type 0 where
  pub subscribers : List (List Subscriber)
  pub queue : Queue Event
  pub events_published : ℕ
  pub events_dispatched : ℕ
  pub events_dropped : ℕ

-- `EVENT_TYPE_MAX`
abbrev pub event_types : ℕ
event_types = 11

abbrev pub next_u64 : ℕ → ℕ
next_u64 n = (n + 1) % 2 ^ 64

-- `event_bus_create`, where the allocations, the locks and the thread succeed.
unfoldable pub create : Bus
create = record {
  subscribers =
      replicate event_types (replicate 16 (record { handler = 0; user_data = 0; active = false }));
  queue = init (record { type = 0; timestamp_ms = 0; source_node_id = 0; data_bytes = [] }) 1024;
  events_published = 0;
  events_dispatched = 0;
  events_dropped = 0;
}

-- The cells of an event type.
abbrev pub row : Bus → ℕ → List Subscriber
row b type = elim (get_elem? b.subscribers type) [ none ↦ [] | some r ↦ r ]

abbrev pub is_free : Subscriber → Bool
is_free s = not s.active

abbrev pub is_handled_by : ℕ → Subscriber → Bool
is_handled_by handler s = s.active && (s.handler == handler)

-- `event_bus_subscribe`, on the cells of the type.
unfoldable pub add_subscriber : List Subscriber → ℕ → ℕ → Option (List Subscriber)
add_subscriber cells handler user_data = elim (find_slot is_free cells) [
  | none ↦ none
  | some (i, s) ↦
      some (set cells i (record { handler = handler; user_data = user_data; active = true }))
]

-- `event_bus_unsubscribe`, on the cells of the type.
unfoldable pub remove_subscriber : List Subscriber → ℕ → Option (List Subscriber)
remove_subscriber cells handler = elim (find_slot (is_handled_by handler) cells) [
  | none ↦ none
  | some (i, s) ↦ some (set cells i (record { handler = 0; user_data = 0; active = false }))
]

-- The row of a type replaced by what an operation makes of it, if it succeeds.
abbrev pub with_row : Bus → ℕ → Option (List Subscriber) → Bool × Bus
with_row b type none = (false, b)
with_row b type (some cells) = (true, record b { subscribers = set b.subscribers type cells })

-- `event_bus_subscribe`
unfoldable pub subscribe : Bus → ℕ → ℕ → ℕ → Bool × Bus
unfolding add_subscriber
subscribe b type handler user_data =
    if (handler == 0) || leb event_types type
    then (false, b)
    else with_row b type (add_subscriber (row b type) handler user_data)

-- `event_bus_unsubscribe`
unfoldable pub unsubscribe : Bus → ℕ → ℕ → Bool × Bus
unfolding remove_subscriber
unsubscribe b type handler =
    if (handler == 0) || leb event_types type
    then (false, b)
    else with_row b type (remove_subscriber (row b type) handler)

-- The handlers that are called for an event of the type, with their data.
unfoldable pub calls : List Subscriber → List (ℕ × ℕ)
calls [] = []
calls (s ∷ rest) =
    let others = calls rest in
    if s.active && not (s.handler == 0) then (s.handler, s.user_data) ∷ others else others

-- `dispatch_event_to_subscribers`
unfoldable pub dispatch : Bus → Event → List (ℕ × ℕ) × Bus
unfolding calls
dispatch b e =
    let cs = calls (row b e.type) in
    if leb event_types e.type
    then ([], b)
    else (cs, record b { events_dispatched = (b.events_dispatched + length cs) % 2 ^ 64 })

-- One round of `dispatch_thread_fn`.
unfoldable pub dispatch_next : Bus → List (ℕ × ℕ) × Bus
unfolding dispatch
dispatch_next b = elim (pop b.queue) [
  | none ↦ ([], b)
  | some (e, q) ↦ dispatch (record b { queue = q }) e
]

-- `event_bus_publish`
unfoldable pub publish : Bus → Event → Bool × Bus
unfolding push
publish b e =
    let counted = record b { events_published = next_u64 b.events_published } in
    let r = push b.queue e in
    if r.0
    then (true, record counted { queue = r.1 })
    else (false, record counted { events_dropped = next_u64 b.events_dropped })

-- `event_bus_publish_sync`
unfoldable pub publish_sync : Bus → Event → List (ℕ × ℕ) × Bus
unfolding dispatch
publish_sync b e = dispatch (record b { events_published = next_u64 b.events_published }) e

-- How many cells of a table are in use, over all its rows.
unfoldable pub active_cells : List Subscriber → ℕ
active_cells [] = 0
active_cells (s ∷ rest) = let n = active_cells rest in if s.active then n + 1 else n

unfoldable pub active_rows : List (List Subscriber) → ℕ
unfolding active_cells
active_rows [] = 0
active_rows (r ∷ rest) = active_cells r + active_rows rest

pub record BusStats : Type 0 where
  pub events_published : ℕ
  pub events_dispatched : ℕ
  pub events_dropped : ℕ
  pub queue_size : ℕ
  pub subscribers_total : ℕ

-- `event_bus_get_stats`
unfoldable pub get_stats : Bus → BusStats
unfolding active_rows
get_stats b = record {
  events_published = b.events_published;
  events_dispatched = b.events_dispatched;
  events_dropped = b.events_dropped;
  queue_size = b.queue.count;
  subscribers_total = active_rows b.subscribers;
}
