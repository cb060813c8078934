-- ===== src/Loader.antt =====
-- src/module_loader.cc and src/module_loader.h: a file and all that it imports, in order.
pub mod Paths
pub mod Merge
pub mod State
pub mod Load
pub mod Graph
pub mod Post
pub mod Sound
pub mod Loads
pub mod Files
pub mod Order
pub mod Normal
pub mod Rooted
pub mod Idempotent
mod Tests
