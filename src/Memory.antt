-- ===== src/Memory.antt =====
-- internal/session/memory_writer.go: the writers of conversation memory.
pub mod Sanitize
pub mod Files
pub mod Archive
pub mod Rotating
pub mod Plain
mod Tests
