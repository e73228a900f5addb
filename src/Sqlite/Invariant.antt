-- ===== src/Sqlite/Invariant.antt =====
-- Invariants of the driver: what each of its writing statements keeps, each of its methods keeps,
-- in the committed database and in the open transaction, also when a statement raises.
pub mod Methods
pub mod Runs
use memori.Prelude.{ℕ, String, Bool, Option, some, List}
use memori.Sql.{Row, Table, update_id, delete}
use memori.Schema.{Db, FactRow}
use memori.Conn.{Stamp}
use memori.Sqlite.Entity.{insert_entity}
use memori.Sqlite.Process.{insert_process, upsert_attribute}
use memori.Sqlite.Session.{insert_session}
use memori.Sqlite.Conversation.{insert_conversation, insert_message}
use memori.Sqlite.EntityFact.{upsert_fact, insert_mention}
use memori.Sqlite.KnowledgeGraph.{
  insert_subject, insert_predicate, insert_object, upsert_edge, delete_edges, delete_subjects,
  delete_predicates, delete_objects,
}

-- `P` is kept by every statement that the driver's methods execute.
pub record IsInvariant (P : Db → Type 0) : Type 0 where
  pub entity : (s : Stamp) (db : Db) → P db → (x : String) → P (insert_entity x s db)
  pub process : (s : Stamp) (db : Db) → P db → (x : String) → P (insert_process x s db)
  pub session :
      (s : Stamp) (db : Db) → P db → (x : String) (e p : Option ℕ) → P (insert_session x e p s db)
  pub conversation : (s : Stamp) (db : Db) → P db → (i : ℕ) → P (insert_conversation i s db)
  pub message :
      (s : Stamp) (db : Db)
      → P db
      → (i : ℕ) (role : String) (type : Option String) (content : String)
      → P (insert_message i role type content s db)
  pub attribute :
      (s : Stamp) (db : Db)
      → P db
      → (i : ℕ) (text uniq : String) → P (upsert_attribute i text uniq s db)
  pub fact :
      (s : Stamp) (db : Db)
      → P db
      → (i : ℕ) (text : String) (e : List ℕ) (uniq : String) → P (upsert_fact i text e uniq s db)
  pub mention : (s : Stamp) (db : Db) → P db → (i j c : ℕ) → P (insert_mention i j c s db)
  pub subject :
      (s : Stamp) (db : Db)
      → P db
      → (name type uniq : String) → P (insert_subject name type uniq s db)
  pub predicate :
      (s : Stamp) (db : Db)
      → P db
      → (content uniq : String) → P (insert_predicate content uniq s db)
  pub object :
      (s : Stamp) (db : Db)
      → P db
      → (name type uniq : String) → P (insert_object name type uniq s db)
  pub edge : (s : Stamp) (db : Db) → P db → (e a b c : ℕ) → P (upsert_edge e a b c s db)
  pub summary :
      (db : Db)
      → P db
      → (i : ℕ) (text : String)
      → P (record db {
        conversation = update_id i (λ c. record c { summary = some text }) db.conversation;
      })
  pub facts_deleted :
      (db : Db)
      → P db
      → (p : Row FactRow → Bool) → P (record db { entity_fact = delete p db.entity_fact })
  pub edges_deleted : (db : Db) → P db → (e : ℕ) → P (delete_edges e db)
  pub subjects_deleted : (db : Db) → P db → P (delete_subjects db)
  pub predicates_deleted : (db : Db) → P db → P (delete_predicates db)
  pub objects_deleted : (db : Db) → P db → P (delete_objects db)
