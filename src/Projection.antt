-- ===== src/Projection.antt =====
-- The document projections of the memory agent: app/mneme/memoria/server/services/projections.py.
pub mod Record
pub mod Stage
pub mod Prepare
pub mod Activate
pub mod Replay
pub mod Contents
pub mod Versions
pub mod Swap
pub mod Outcome
pub mod Visible
pub mod Shown
pub mod Refinement
pub mod Handler
mod Samples
