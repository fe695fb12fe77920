-- ===== src/Buffers.antt =====
-- The queues between goroutines: internal/buffer.
pub mod Unbounded
