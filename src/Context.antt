-- ===== src/Context.antt =====
-- The bounded context of an answer: app/mneme/memoria/context_governance.py.
pub mod Source
pub mod Assemble
pub mod Bounds
mod Samples
