-- ===== src/System/Machine/Preserve.antt =====
-- Every call keeps the handle table sound, component by component.
pub mod Blocks
pub mod Traps
pub mod Messages
pub mod Pipes
pub mod Fuse
pub mod Data
pub mod Buffers
