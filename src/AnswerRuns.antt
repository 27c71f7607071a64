-- ===== src/AnswerRuns.antt =====
-- The answer runs of the memory agent: app/mneme/memoria/server/repositories/runs.py.
pub mod Record
pub mod Repository
pub mod Lifecycle
pub mod Table
pub mod Finality
pub mod Progress
mod Samples
