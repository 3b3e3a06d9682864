-- ===== src/Protocol.antt =====
-- src/memcached_protocol.c
pub mod CString
pub mod Commands
pub mod Head
mod Tests
pub mod Keys
pub mod Outcome
pub mod Words
pub mod Numbers
pub mod Lines
pub mod SetLine
pub mod KeyLine
