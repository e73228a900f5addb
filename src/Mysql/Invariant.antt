-- ===== src/Mysql/Invariant.antt =====
-- Invariants of the driver: what each of its writing statements keeps where the server lets it
-- run, each of its methods keeps, in the committed database and in the open transaction, also when
-- a statement raises.
pub mod Methods
pub mod Runs
use memori.Prelude.{ℕ, String, Bool, true, Option, List, ◌≡◌}
use memori.Schema.{Db}
use memori.Conn.{Stamp}
use memori.Foreign.{message_fits, delete_facts}
use memori.Server.{keep_ids}
use memori.Sqlite.Entity.{insert_entity}
use memori.Sqlite.Process.{insert_process}
use memori.Sqlite.Conversation.{insert_message}
use memori.Sqlite.KnowledgeGraph.{
  insert_subject, insert_predicate, insert_object, delete_edges, delete_subjects, delete_predicates,
  delete_objects,
}
use memori.Mysql.Accounts.{insert_session_ignore, attribute_ready, upsert_attribute}
use memori.Mysql.Conversation.{insert_conversation_ignore, set_summary}
use memori.Mysql.EntityFact.{fact_ready, upsert_fact, insert_mention_ignore}
use memori.Mysql.KnowledgeGraph.{edge_ready, upsert_edge}

-- `P` is kept by every statement that the driver's methods execute.
pub record IsInvariant (P : Db → Type 0) : Type 0 where
  pub entity : (s : Stamp) (db : Db) → P db → (x : String) → P (insert_entity x s db)
  pub process : (s : Stamp) (db : Db) → P db → (x : String) → P (insert_process x s db)
  pub session :
      (s : Stamp) (db : Db)
      → P db
      → (x : String) (e p : Option ℕ) → P (insert_session_ignore x e p s db)
  pub conversation : (s : Stamp) (db : Db) → P db → (i : ℕ) → P (insert_conversation_ignore i s db)
  pub message :
      (s : Stamp) (db : Db)
      → P db
      → (i : ℕ) (role : String) (type : Option String) (content : String) → message_fits i db ≡ true
      → P (insert_message i role type content s db)
  pub attribute :
      (s : Stamp) (db : Db)
      → P db
      → (i : ℕ) (text uniq : String) → attribute_ready i uniq db ≡ true
      → P (upsert_attribute i text uniq s db)
  pub fact :
      (s : Stamp) (db : Db)
      → P db
      → (i : ℕ) (text : String) (e : List ℕ) (uniq : String) → fact_ready i uniq db ≡ true
      → P (upsert_fact i text e uniq s db)
  pub mention : (s : Stamp) (db : Db) → P db → (i j c : ℕ) → P (insert_mention_ignore i j c s db)
  pub subject :
      (s : Stamp) (db : Db)
      → P db
      → (name type uniq : String) → P (insert_subject name type uniq s db)
  pub predicate :
      (s : Stamp) (db : Db)
      → P db
      → (content uniq : String) → P (insert_predicate content uniq s db)
  pub object :
      (s : Stamp) (db : Db)
      → P db
      → (name type uniq : String) → P (insert_object name type uniq s db)
  pub edge :
      (s : Stamp) (db : Db)
      → P db
      → (e a b c : ℕ) → edge_ready e a b c db ≡ true
      → P (upsert_edge e a b c s db)
  pub summary : (s : Stamp) (db : Db) → P db → (i : ℕ) (text : String) → P (set_summary i text s db)
  pub facts_deleted : (db : Db) → P db → (e : ℕ) → P (delete_facts e db)
  pub edges_deleted : (db : Db) → P db → (e : ℕ) → P (delete_edges e db)
  pub subjects_deleted : (db : Db) → P db → P (delete_subjects db)
  pub predicates_deleted : (db : Db) → P db → P (delete_predicates db)
  pub objects_deleted : (db : Db) → P db → P (delete_objects db)
  pub ids_kept : (db other : Db) → P db → P (keep_ids db other)
