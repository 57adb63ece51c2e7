-- ===== src/Fallback.antt =====
-- federation/src/fallback.ts: retries, version compatibility and the circuit breaker.
pub mod Retry
pub mod Versions
pub mod Circuit
mod Tests
