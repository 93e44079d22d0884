-- ===== src/Game.antt =====
-- Versions of the game, rust/crates/rc-launcher-core/src/game: what has to be downloaded for one.
pub mod Pattern
pub mod Platform
pub mod Library
pub mod Version
pub mod Path
pub mod Plan
mod Tests
