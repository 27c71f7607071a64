-- ===== src/Events.antt =====
-- The durable events of a run: app/mneme/memoria/persistence/runtime_events.py.
pub mod Table
pub mod Cursor
mod Samples
