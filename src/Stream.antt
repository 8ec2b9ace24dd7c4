-- ===== src/Stream.antt =====
-- Streams (src/connection/stream.rs): the buffers of one stream and the limits on all of them.
pub mod RangeBuf
pub mod Recv
pub mod Send
pub mod Kind
pub mod Concurrency
pub mod Capacity
