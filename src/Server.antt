-- ===== src/Server.antt =====
-- What a database server does that SQLite does not: it checks foreign keys, and the counters that
-- ids are drawn from are not part of a transaction.
pub mod Kept
pub mod Keys
use Prim.Native.Nat.{max}
use memori.Prelude.{ℕ, Bool, true, Option, none, some, if◌then◌else◌}
use memori.Exec.{Exec, integrity_error, or_raise, ◌>>=◌}
use memori.Sql.{Table}
use memori.Schema.{Db}
use memori.Conn.{Env, Conn, Stamp, execute, attempt}

abbrev pub keep_id : {R : Type 0} → Table R → Table R → Table R
keep_id t u = record t { next_id = max t.next_id u.next_id }

-- The rows of one database, with the counters of both.
unfoldable pub keep_ids : Db → Db → Db
keep_ids db other = record {
  schema_version = db.schema_version;
  entity = keep_id db.entity other.entity;
  process = keep_id db.process other.process;
  session = keep_id db.session other.session;
  conversation = keep_id db.conversation other.conversation;
  conversation_message = keep_id db.conversation_message other.conversation_message;
  entity_fact = keep_id db.entity_fact other.entity_fact;
  process_attribute = keep_id db.process_attribute other.process_attribute;
  subject = keep_id db.subject other.subject;
  predicate = keep_id db.predicate other.predicate;
  object = keep_id db.object other.object;
  knowledge_graph = keep_id db.knowledge_graph other.knowledge_graph;
  entity_fact_mention = keep_id db.entity_fact_mention other.entity_fact_mention;
}

-- What a rollback leaves, committed and open.
abbrev pub rolled_back : Conn → Conn
rolled_back c = let db = keep_ids c.committed c.db in record c { committed = db; db = db }

-- An INSERT whose foreign keys are met, or an IntegrityError that changes nothing.
abbrev pub checked : (Db → Bool) → (Stamp → Db → Db) → Stamp → Db → Option (Unit {0}) × Db
checked fits f s db = if fits db then (some tt, f s db) else (none, db)

module _ (env : Env) where
  unfoldable pub write_checked : (Db → Bool) → (Stamp → Db → Db) → Exec Conn (Unit {0})
  unfolding execute
  write_checked fits f = do done ← execute env (checked fits f); or_raise integrity_error done

  -- `conn.rollback()`
  unfoldable pub rollback : Exec Conn (Unit {0})
  rollback c = attempt env (env.fault c.step) (tt, rolled_back c) c
