-- ===== src/RunStore.antt =====
-- Coordination of agent runs: the process-local backend of `AgentRunStore` in
-- app/mneme/memoria/persistence/runs.py, over the records of app/mneme/memoria/run_models.py.
pub mod Record
pub mod Memory
pub mod Exclusion
pub mod Turns
mod Samples
