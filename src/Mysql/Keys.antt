-- ===== src/Mysql/Keys.antt =====
-- The uniqueness constraints and the ids over any run of the driver.
use memori.Prelude.{ℕ, String, Option, List, refl, Bool-cases, inl, inr}
use memori.Schema.{Db}
use memori.Conn.{Env, Conn, Stamp}
use memori.Conn.Quiet.{Both}
use memori.Foreign.{session_fits, conversation_fits, mention_fits}
use memori.Sql.Laws.{Spares, upsert-IsSound, update_id-IsSound, skip_ids-IsSound}
use memori.Sqlite.Keys.{IsKeyed, same_fact, same_attribute, same_edge, same_conversation}
use memori.Sqlite.Keys.Statements.{
  insert_entity-IsKeyed, insert_process-IsKeyed, insert_session-IsKeyed,
  insert_conversation-IsKeyed, insert_message-IsKeyed, insert_mention-IsKeyed,
  insert_subject-IsKeyed, insert_predicate-IsKeyed, insert_object-IsKeyed, delete_edges-IsKeyed,
  delete_subjects-IsKeyed, delete_predicates-IsKeyed, delete_objects-IsKeyed, fact_comm,
  attribute_comm, edge_comm,
}
use memori.Server.Keys.{keep_ids-IsKeyed, delete_facts-IsKeyed}
use memori.Sqlite.Calls.{Call}
use memori.Mysql.Accounts.{insert_session_ignore, upsert_attribute, attribute_again}
use memori.Mysql.Conversation.{insert_conversation_ignore, set_summary, summarise, is_text}
use memori.Mysql.EntityFact.{upsert_fact, fact_again, insert_mention_ignore}
use memori.Mysql.KnowledgeGraph.{upsert_edge, edge_again}
use memori.Mysql.Calls.{run_mysql}
use memori.Mysql.Invariant.{IsInvariant}
use memori.Mysql.Invariant.Runs.{run_mysql-keeps}

summarise-Spares : (text : String) (now : ℕ) → Spares same_conversation (summarise text now)
summarise-Spares text now = record {
  right = λ a b. elim (Bool-cases (is_text b.summary text)) [
    | inl same ↦ rw same refl
    | inr other ↦ rw other refl
  ];
  left = λ a b. elim (Bool-cases (is_text a.summary text)) [
    | inl same ↦ rw same refl
    | inr other ↦ rw other refl
  ];
}

module _ (s : Stamp) (db : Db) (k : IsKeyed db) where
  session : (x : String) (e p : Option ℕ) → IsKeyed (insert_session_ignore x e p s db)
  unfolding insert_session_ignore
  session x e p = elim (Bool-cases (session_fits e p db)) [
    | inl met ↦ rw met (insert_session-IsKeyed s db k x e p)
    | inr unmet ↦ rw unmet (search (skip_ids-IsSound))
  ]

  conversation : (i : ℕ) → IsKeyed (insert_conversation_ignore i s db)
  unfolding insert_conversation_ignore
  conversation i = elim (Bool-cases (conversation_fits i db)) [
    | inl met ↦ rw met (insert_conversation-IsKeyed s db k i)
    | inr unmet ↦ rw unmet (search (skip_ids-IsSound))
  ]

  mention : (e f c : ℕ) → IsKeyed (insert_mention_ignore e f c s db)
  unfolding insert_mention_ignore
  mention e f c = elim (Bool-cases (mention_fits e f c db)) [
    | inl met ↦ rw met (insert_mention-IsKeyed s db k e f c)
    | inr unmet ↦ rw unmet (search (skip_ids-IsSound))
  ]

  attribute : (i : ℕ) (text uniq : String) → IsKeyed (upsert_attribute i text uniq s db)
  unfolding upsert_attribute
  attribute i text uniq = search (
      upsert-IsSound same_attribute attribute_comm (attribute_again s.now) s.gap _
        db.process_attribute (record { right = λ a b. refl; left = λ a b. refl })
        k.process_attribute)

  fact :
      (i : ℕ) (text : String) (e : List ℕ) (uniq : String)
      → IsKeyed (upsert_fact i text e uniq s db)
  unfolding upsert_fact
  fact i text e uniq = search (
      upsert-IsSound same_fact fact_comm (fact_again s.now) s.gap _ db.entity_fact
        (record { right = λ a b. refl; left = λ a b. refl }) k.entity_fact)

  edge : (e a b c : ℕ) → IsKeyed (upsert_edge e a b c s db)
  unfolding upsert_edge
  edge e a b c = search (
      upsert-IsSound same_edge edge_comm (edge_again s.now) s.gap _ db.knowledge_graph
        (record { right = λ a b. refl; left = λ a b. refl }) k.knowledge_graph)

  summary : (i : ℕ) (text : String) → IsKeyed (set_summary i text s db)
  unfolding set_summary
  summary i text = search (
      update_id-IsSound same_conversation i (summarise text s.now) db.conversation
        (summarise-Spares text s.now) k.conversation)

IsKeyed-IsInvariant : IsInvariant IsKeyed
IsKeyed-IsInvariant = record {
  entity = insert_entity-IsKeyed;
  process = insert_process-IsKeyed;
  session = session;
  conversation = conversation;
  message = λ s db k i role type content _. insert_message-IsKeyed s db k i role type content;
  attribute = λ s db k i text uniq _. attribute s db k i text uniq;
  fact = λ s db k i text e uniq _. fact s db k i text e uniq;
  mention = mention;
  subject = insert_subject-IsKeyed;
  predicate = insert_predicate-IsKeyed;
  object = insert_object-IsKeyed;
  edge = λ s db k e a b c _. edge s db k e a b c;
  summary = summary;
  facts_deleted = delete_facts-IsKeyed;
  edges_deleted = delete_edges-IsKeyed;
  subjects_deleted = delete_subjects-IsKeyed;
  predicates_deleted = delete_predicates-IsKeyed;
  objects_deleted = delete_objects-IsKeyed;
  ids_kept = keep_ids-IsKeyed;
}

-- From a connection both of whose databases have ids that ascend and no two rows that a
-- uniqueness constraint (other than that of `uuid`) keeps apart, any run of the MySQL driver's
-- writing methods, commits and rollbacks leads to such a connection, whichever statements raise.
pub run_mysql-IsKeyed :
    (env : Env) (calls : List Call) (c : Conn)
    → Both IsKeyed c
    → Both IsKeyed (run_mysql env calls c)
run_mysql-IsKeyed env = run_mysql-keeps IsKeyed-IsInvariant env
