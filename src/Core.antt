-- ===== src/Core.antt =====
-- Parts of src/core: chains of buckets and sending them, the block allocator, the end of a
-- connection, and queues.
pub mod Bucket
pub mod Blalloc
pub mod Conn
pub mod Server
pub mod Queue
pub mod Tests
mod ConnTests
mod ServerTests
mod BlallocTests
mod QueueTests
