-- ===== src/Mods.antt =====
-- Mods, rust/crates/rc-launcher-core/src/mods: the version constraints of their manifests, and the
-- check of a loadout.
pub mod Constraint
pub mod Conflict
pub mod Present
pub mod Sound
pub mod Checks
pub mod Loadout
mod Tests
