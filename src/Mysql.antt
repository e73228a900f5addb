-- ===== src/Mysql.antt =====
-- The driver of memori/storage/drivers/mysql/_driver.py (also for MariaDB and TiDB), a module for
-- each of its classes. A statement that does to a table what SQLite's does is that of Sqlite. The
-- columns' lengths and collations are left out: texts are as long as they are, and differ if they
-- differ.
pub mod Accounts
pub mod Conversation
pub mod EntityFact
pub mod KnowledgeGraph
pub mod SchemaVersion
pub mod Calls
pub mod Invariant
pub mod Keys
