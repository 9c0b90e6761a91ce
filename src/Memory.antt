-- ===== src/Memory.antt =====
-- pkg/memory.
pub mod Messages
pub mod Jsonl
