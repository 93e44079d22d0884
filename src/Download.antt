-- ===== src/Download.antt =====
-- The download manager, rust/crates/rc-launcher-core/src/download.
pub mod Plan
pub mod Resume
pub mod Chunk
pub mod Range
pub mod Manager
mod Tests
