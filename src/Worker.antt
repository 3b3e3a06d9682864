-- ===== src/Worker.antt =====
-- src/query_thread.c: the worker threads.
pub mod Decimal
pub mod Digits
pub mod Reply
pub mod Send
pub mod Answer
pub mod NoMemory
pub mod Pipe
pub mod Missing
pub mod Tests
