-- ===== src/Core.antt =====
-- The event bus of src/core/event_bus.c: its queue, and its subscribers.
pub mod Queue
pub mod Events
pub mod Services
