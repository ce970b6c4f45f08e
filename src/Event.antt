-- ===== src/Event.antt =====
-- The event core of src/event and include/event.
pub mod Pq
pub mod Clock
pub mod Gather
mod Tests
