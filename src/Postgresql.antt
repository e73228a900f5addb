-- ===== src/Postgresql.antt =====
-- The driver of memori/storage/drivers/postgresql/_driver.py (also for CockroachDB), a module for
-- each of its classes. A statement that does to a table what SQLite's does is that of Sqlite. The
-- columns' lengths are left out. CURRENT_TIMESTAMP is the start of the transaction, which is one of
-- the clocks that `Env` may have.
pub mod Session
pub mod Accounts
pub mod Conversation
pub mod EntityFact
pub mod KnowledgeGraph
pub mod SchemaVersion
pub mod Calls
pub mod Invariant
pub mod Aborted
pub mod Refines
pub mod Pending
pub mod Keys
