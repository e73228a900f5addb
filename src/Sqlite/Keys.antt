-- ===== src/Sqlite/Keys.antt =====
-- The uniqueness constraints of memori/storage/migrations/_sqlite.py and the ids of the rows: no
-- statement of the driver, in any order and whichever fail, breaks them.
pub mod Statements
pub mod Runs
use memori.Prelude.{ℕ, String, ◌≡◌, Bool, false, arith, str_eq, eq_iff}
use memori.Sql.Laws.{IsSound}
use memori.Schema.{
  Db, EntityRow, ProcessRow, SessionRow, ConversationRow, MessageRow, FactRow, AttributeRow,
  SubjectRow, PredicateRow, ObjectRow, EdgeRow, MentionRow,
}
use memori.Sqlite.Entity
use memori.Sqlite.Process
use memori.Sqlite.Session
use memori.Sqlite.Conversation
use memori.Sqlite.EntityFact
use memori.Sqlite.KnowledgeGraph

-- Two rows that a constraint keeps apart, for each table. Messages have none but their ids.
module _ where
  abbrev pub same_entity : EntityRow → EntityRow → Bool
  same_entity a = Entity.named a.external_id

  abbrev pub same_process : ProcessRow → ProcessRow → Bool
  same_process a = Process.named a.external_id

  abbrev pub same_session : SessionRow → SessionRow → Bool
  same_session a = Session.named a.uuid

  abbrev pub same_conversation : ConversationRow → ConversationRow → Bool
  same_conversation a = Conversation.of_session a.session_id

  abbrev pub same_message : MessageRow → MessageRow → Bool
  same_message a b = false

  abbrev pub same_fact : FactRow → FactRow → Bool
  same_fact a = EntityFact.keyed a.entity_id a.uniq

  abbrev pub same_attribute : AttributeRow → AttributeRow → Bool
  same_attribute a = Process.keyed a.process_id a.uniq

  abbrev pub same_subject : SubjectRow → SubjectRow → Bool
  same_subject a = KnowledgeGraph.is_subject a.uniq

  abbrev pub same_predicate : PredicateRow → PredicateRow → Bool
  same_predicate a = KnowledgeGraph.is_predicate a.uniq

  abbrev pub same_object : ObjectRow → ObjectRow → Bool
  same_object a = KnowledgeGraph.is_object a.uniq

  abbrev pub same_edge : EdgeRow → EdgeRow → Bool
  same_edge a = KnowledgeGraph.is_edge a.entity_id a.subject_id a.predicate_id a.object_id

  abbrev pub same_mention : MentionRow → MentionRow → Bool
  same_mention a = EntityFact.mentioned a.entity_id a.fact_id a.conversation_id

pub record IsKeyed (db : Db) : Type 0 where
  pub entity : IsSound same_entity db.entity
  pub process : IsSound same_process db.process
  pub session : IsSound same_session db.session
  pub conversation : IsSound same_conversation db.conversation
  pub conversation_message : IsSound same_message db.conversation_message
  pub entity_fact : IsSound same_fact db.entity_fact
  pub process_attribute : IsSound same_attribute db.process_attribute
  pub subject : IsSound same_subject db.subject
  pub predicate : IsSound same_predicate db.predicate
  pub object : IsSound same_object db.object
  pub knowledge_graph : IsSound same_edge db.knowledge_graph
  pub entity_fact_mention : IsSound same_mention db.entity_fact_mention

pub str_eq_comm : (a b : String) → str_eq a b ≡ str_eq b a
str_eq_comm a b = ground (arith, eq_iff a b, eq_iff b a)
