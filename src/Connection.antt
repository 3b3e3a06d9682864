-- ===== src/Connection.antt =====
-- src/assign_thread.c: the connections that send requests.
pub mod Task
pub mod Receive
pub mod Handler
pub mod Destroy
pub mod Listen
pub mod Turns
pub mod Buffers
pub mod HeadLine
pub mod SetHead
pub mod Data
pub mod Chunks
pub mod Accept
pub mod Sent
pub mod Serve
pub mod KeyHead
pub mod Safe
pub mod Overrun
pub mod Tests
