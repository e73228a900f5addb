-- ===== src/Sqlite.antt =====
-- The driver of memori/storage/drivers/sqlite/_driver.py, a module for each of its classes.
pub mod Conversation
pub mod Entity
pub mod EntityFact
pub mod KnowledgeGraph
pub mod Process
pub mod Session
pub mod SchemaVersion
pub mod Calls
pub mod Invariant
pub mod Keys
pub mod Identity
