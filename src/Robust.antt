-- ===== src/Robust.antt =====
-- The robustness layer, rust/crates/rc-launcher-core/src/robust: retries and the offline cache.
pub mod Retry
pub mod Cache
pub mod Backoff
mod Tests
