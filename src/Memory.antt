-- ===== src/Memory.antt =====
-- The governed memories of the agent: app/mneme/memoria/server/memory/reconciliation.py, policy.py and
-- identity.py beside it, and app/mneme/memoria/server/repositories/memories.py.
pub mod Record
pub mod Policy
pub mod Tables
pub mod Evidence
pub mod Revise
pub mod Reconcile
pub mod Decide
pub mod Governed
pub mod Effects
pub mod Changes
pub mod Steps
pub mod Reconciled
pub mod Governance
pub mod Histories
pub mod Promises
mod Samples
