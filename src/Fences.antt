-- ===== src/Fences.antt =====
-- Deletion fences: app/mneme/memoria/server/services/deletion_fences.py.
pub mod Source
pub mod Table
pub mod Upsert
pub mod Blocking
mod Samples
