-- ===== src/Native.antt =====
-- memori/native/_adapter.py: the Rust engine's view of the store. The engine is third-party to this
-- model; modelled are the callbacks that it is given and how one engine is made and shared.
pub mod Values
pub mod Batch
pub mod Engine
