-- ===== src/Storage.antt =====
-- src/storage.c
pub mod Sizes
pub mod Bytes
pub mod Types
pub mod Files
pub mod Blocks
pub mod Ops
pub mod Slots
pub mod Invariant
pub mod Reads
pub mod View
pub mod Lifecycle
pub mod Stored
pub mod Written
pub mod Update
pub mod Others
pub mod Find
pub mod TooLarge
pub mod Tests
