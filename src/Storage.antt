-- ===== src/Storage.antt =====
-- memori/storage: how the tables are brought up to date, and the queue of writes.
pub mod Builder
pub mod Connection
