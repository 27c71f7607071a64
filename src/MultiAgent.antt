-- ===== src/MultiAgent.antt =====
-- The bounded retrieval by several roles: app/mneme/memoria/server/multi_agent.
pub mod Budget
pub mod Coordinator
pub mod Reservations
pub mod Allocation
mod Samples
