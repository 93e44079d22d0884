-- ===== src/Awt.antt =====
-- The off-screen desktop, rust/crates/rc-launcher-core/src/launch/awt.rs from its rectangles on:
-- geometry, the frame wire format, the double-buffered canvas, the viewport and the input records.
pub mod Rect
pub mod Rows
pub mod Bytes
pub mod Frame
pub mod Canvas
pub mod Poll
pub mod Viewport
pub mod Event
pub mod Input
mod Tests
