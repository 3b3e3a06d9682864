-- ===== src/IndexLog.antt =====
-- src/indexlog.c
pub mod Encoding
pub mod Writer
pub mod Reader
pub mod Blocks
pub mod Append
pub mod Keeps
pub mod Fetch
pub mod Replay
pub mod RoundTrip
pub mod Bounds
mod Tests
