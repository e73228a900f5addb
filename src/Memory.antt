-- ===== src/Memory.antt =====
-- memori/memory: how a conversation is written to the store.
pub mod Config
pub mod Writer
pub mod Manager
pub mod Recall
pub mod DbWriter
