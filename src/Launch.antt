-- ===== src/Launch.antt =====
-- rust/crates/rc-launcher-core/src/launch: the arguments of the game, the options of a launch, the
-- command line built from them, and the diagnosis of a run that ended.
pub mod Text
pub mod Path
pub mod Args
pub mod Crash
pub mod Options
pub mod Bridge
pub mod Env
pub mod Classpath
pub mod Command
pub mod Noted
pub mod Table
pub mod BaseArgs
pub mod Merge
pub mod GameArgs
pub mod Build
mod Tests
