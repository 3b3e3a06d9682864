-- ===== src/Slab.antt =====
-- src/slab.c
pub mod Classes
pub mod Search
pub mod Scan
pub mod Table
pub mod Alloc
pub mod Release
pub mod Apart
pub mod Pools
pub mod Pieces
pub mod Owns
pub mod Grow
pub mod Pages
pub mod Calls
pub mod Free
pub mod Resize
pub mod Steps
pub mod Trace
mod Tests
