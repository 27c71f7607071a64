-- ===== src/Infra.antt =====
-- Shared guards: app/mneme/infra/rate_limit/__init__.py and app/mneme/infra/retry/__init__.py.
pub mod RateLimit
pub mod Windows
pub mod Retry
pub mod Attempts
mod Samples
