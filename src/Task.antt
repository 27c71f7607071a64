-- ===== src/Task.antt =====
-- Background tasks: app/mneme/domains/tasks/state.py (the state machine), app/mneme/domains/tasks/admin.py
-- (cancel and retry by a user) and the writes of app/mneme/crud/task_record.py.
pub mod State
pub mod Record
pub mod Transitions
pub mod Rows
mod Selection
pub mod Maintenance
mod Samples
