-- ===== src/Outbox.antt =====
-- The transactional outbox: domains/tasks/outbox.py and crud/outbox_event.py under app/mneme.
-- `Event` has the row and its settings, `Table` the queries and writes of one session, `Worker` the
-- delivery of one event and of a batch, `Overlap` the transactions of deliveries side by side; the
-- other modules prove.
pub mod Event
pub mod Table
pub mod Worker
mod Rows
pub mod Delivery
pub mod Invariant
pub mod Retries
pub mod Overlap
pub mod Schedules
pub mod Alone
pub mod Late
pub mod Enqueue
pub mod Dispatch
pub mod Crash
pub mod Routing
mod Samples
