-- ===== src/Inbox.antt =====
-- The inbox of the memory agent: app/mneme/memoria/server/repositories/inbox.py and
-- services/event_dispatcher.py.
pub mod Table
pub mod Worker
pub mod Rows
pub mod Outcomes
mod Samples
