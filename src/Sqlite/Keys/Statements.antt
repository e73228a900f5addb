-- ===== src/Sqlite/Keys/Statements.antt =====
-- Each write of the driver keeps `IsKeyed`.
use memori.Prelude.{ℕ, String, Option, ◌≡◌, refl, some, List, [], ◌∷◌, arith, any, false, Bool}
use memori.Sql.{Row, update_id, delete}
use memori.Sql.Laws.{
  Spares, insert_or_ignore-IsSound, insert-IsSound, upsert-IsSound, update_id-IsSound,
  delete-IsSound,
}
use memori.Schema.{Db, FactRow, AttributeRow, EdgeRow, ConversationRow, MentionRow, MessageRow}
use memori.Conn.{Stamp}
use memori.Sqlite.Entity.{insert_entity}
use memori.Sqlite.Process.{insert_process, upsert_attribute}
use memori.Sqlite.Process
use memori.Sqlite.Session.{insert_session}
use memori.Sqlite.Conversation.{insert_conversation, insert_message}
use memori.Sqlite.EntityFact.{upsert_fact, insert_mention}
use memori.Sqlite.EntityFact
use memori.Sqlite.KnowledgeGraph.{
  insert_subject, insert_predicate, insert_object, upsert_edge, delete_edges, delete_subjects,
  delete_predicates, delete_objects,
}
use memori.Sqlite.KnowledgeGraph
use memori.Sqlite.Keys.{
  IsKeyed, str_eq_comm, same_entity, same_process, same_session, same_conversation, same_message,
  same_fact, same_attribute, same_subject, same_predicate, same_object, same_edge, same_mention,
}

seen_fact : (now : ℕ) → Spares same_fact (EntityFact.seen_again now)
seen_fact now = record { right = λ a b. refl; left = λ a b. refl }

seen_attribute : (now : ℕ) → Spares same_attribute (Process.seen_again now)
seen_attribute now = record { right = λ a b. refl; left = λ a b. refl }

seen_edge : (now : ℕ) → Spares same_edge (KnowledgeGraph.seen_again now)
seen_edge now = record { right = λ a b. refl; left = λ a b. refl }

summarise : (text : String) → Spares same_conversation (λ c. record c { summary = some text })
summarise text = record { right = λ a b. refl; left = λ a b. refl }

pub fact_comm : (a b : FactRow) → same_fact a b ≡ same_fact b a
fact_comm a b = ground (arith, str_eq_comm a.uniq b.uniq)

pub attribute_comm : (a b : AttributeRow) → same_attribute a b ≡ same_attribute b a
attribute_comm a b = ground (arith, str_eq_comm a.uniq b.uniq)

pub edge_comm : (a b : EdgeRow) → same_edge a b ≡ same_edge b a
edge_comm a b = ground arith

mention_comm : (a b : MentionRow) → same_mention a b ≡ same_mention b a
mention_comm a b = ground arith

conversation_comm : (a b : ConversationRow) → same_conversation a b ≡ same_conversation b a
conversation_comm a b = ground arith

no_same_message : (rows : List (Row MessageRow)) → any (λ (_ : Row MessageRow). false) rows ≡ false
no_same_message [] = refl
no_same_message (x ∷ rows) = no_same_message rows

module _ (s : Stamp) (db : Db) (k : IsKeyed db) where
  pub insert_entity-IsKeyed : (x : String) → IsKeyed (insert_entity x s db)
  unfolding insert_entity
  insert_entity-IsKeyed x = search (
      insert_or_ignore-IsSound same_entity (λ a b. str_eq_comm a.external_id b.external_id) s.gap _
        db.entity k.entity)

  pub insert_process-IsKeyed : (x : String) → IsKeyed (insert_process x s db)
  unfolding insert_process
  insert_process-IsKeyed x = search (
      insert_or_ignore-IsSound same_process (λ a b. str_eq_comm a.external_id b.external_id) s.gap _
        db.process k.process)

  pub insert_session-IsKeyed : (x : String) (e p : Option ℕ) → IsKeyed (insert_session x e p s db)
  unfolding insert_session
  insert_session-IsKeyed x e p = search (
      insert_or_ignore-IsSound same_session (λ a b. str_eq_comm a.uuid b.uuid) s.gap _ db.session
        k.session)

  pub insert_conversation-IsKeyed : (i : ℕ) → IsKeyed (insert_conversation i s db)
  unfolding insert_conversation
  insert_conversation-IsKeyed i = search (
      insert_or_ignore-IsSound same_conversation conversation_comm s.gap _ db.conversation
        k.conversation)

  pub insert_message-IsKeyed :
      (i : ℕ) (role : String) (type : Option String) (content : String)
      → IsKeyed (insert_message i role type content s db)
  unfolding insert_message
  insert_message-IsKeyed i role type content = search (
      insert-IsSound same_message (λ a b. refl) _ db.conversation_message
        (no_same_message db.conversation_message.rows) k.conversation_message)

  pub upsert_attribute-IsKeyed :
      (i : ℕ) (text uniq : String) → IsKeyed (upsert_attribute i text uniq s db)
  unfolding upsert_attribute
  upsert_attribute-IsKeyed i text uniq = search (
      upsert-IsSound same_attribute attribute_comm (Process.seen_again s.now) s.gap _
        db.process_attribute (seen_attribute s.now) k.process_attribute)

  pub upsert_fact-IsKeyed :
      (i : ℕ) (text : String) (e : List ℕ) (uniq : String)
      → IsKeyed (upsert_fact i text e uniq s db)
  unfolding upsert_fact
  upsert_fact-IsKeyed i text e uniq = search (
      upsert-IsSound same_fact fact_comm (EntityFact.seen_again s.now) s.gap _ db.entity_fact
        (seen_fact s.now) k.entity_fact)

  pub insert_mention-IsKeyed : (i j c : ℕ) → IsKeyed (insert_mention i j c s db)
  unfolding insert_mention
  insert_mention-IsKeyed i j c = search (
      insert_or_ignore-IsSound same_mention mention_comm s.gap _ db.entity_fact_mention
        k.entity_fact_mention)

  pub insert_subject-IsKeyed :
      (name type uniq : String) → IsKeyed (insert_subject name type uniq s db)
  unfolding insert_subject
  insert_subject-IsKeyed name type uniq = search (
      insert_or_ignore-IsSound same_subject (λ a b. str_eq_comm a.uniq b.uniq) s.gap _ db.subject
        k.subject)

  pub insert_predicate-IsKeyed :
      (content uniq : String) → IsKeyed (insert_predicate content uniq s db)
  unfolding insert_predicate
  insert_predicate-IsKeyed content uniq = search (
      insert_or_ignore-IsSound same_predicate (λ a b. str_eq_comm a.uniq b.uniq) s.gap _
        db.predicate k.predicate)

  pub insert_object-IsKeyed :
      (name type uniq : String) → IsKeyed (insert_object name type uniq s db)
  unfolding insert_object
  insert_object-IsKeyed name type uniq = search (
      insert_or_ignore-IsSound same_object (λ a b. str_eq_comm a.uniq b.uniq) s.gap _ db.object
        k.object)

  pub upsert_edge-IsKeyed : (e a b c : ℕ) → IsKeyed (upsert_edge e a b c s db)
  unfolding upsert_edge
  upsert_edge-IsKeyed e a b c = search (
      upsert-IsSound same_edge edge_comm (KnowledgeGraph.seen_again s.now) s.gap _
        db.knowledge_graph (seen_edge s.now) k.knowledge_graph)

module _ (db : Db) (k : IsKeyed db) where
  pub summary-IsKeyed :
      (i : ℕ) (text : String)
      → IsKeyed (record db {
        conversation = update_id i (λ c. record c { summary = some text }) db.conversation;
      })
  summary-IsKeyed i text = search (
      update_id-IsSound same_conversation i (λ c. record c { summary = some text }) db.conversation
        (summarise text) k.conversation)

  pub delete_facts-IsKeyed :
      (p : Row FactRow → Bool) → IsKeyed (record db { entity_fact = delete p db.entity_fact })
  delete_facts-IsKeyed p = search (delete-IsSound same_fact p db.entity_fact k.entity_fact)

  pub delete_edges-IsKeyed : (e : ℕ) → IsKeyed (delete_edges e db)
  unfolding delete_edges
  delete_edges-IsKeyed e = search (delete-IsSound same_edge _ db.knowledge_graph k.knowledge_graph)

  pub delete_subjects-IsKeyed : IsKeyed (delete_subjects db)
  unfolding delete_subjects
  delete_subjects-IsKeyed = search (delete-IsSound same_subject _ db.subject k.subject)

  pub delete_predicates-IsKeyed : IsKeyed (delete_predicates db)
  unfolding delete_predicates
  delete_predicates-IsKeyed = search (delete-IsSound same_predicate _ db.predicate k.predicate)

  pub delete_objects-IsKeyed : IsKeyed (delete_objects db)
  unfolding delete_objects
  delete_objects-IsKeyed = search (delete-IsSound same_object _ db.object k.object)
