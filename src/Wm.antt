-- ===== src/Wm.antt =====
-- src/wm: the manage and render sequences, and the layout that they apply.
pub mod Layout
pub mod Manage
pub mod Render
pub mod Tiling
pub mod Safety
pub mod Requests
pub mod Rows
pub mod Apart
pub mod Focus
pub mod Spawn
