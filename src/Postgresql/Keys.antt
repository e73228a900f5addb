-- ===== src/Postgresql/Keys.antt =====
-- The uniqueness constraints and the ids over any run of the driver.
use memori.Prelude.{List}
use memori.Conn.{Env}
use memori.Sqlite.Keys.{IsKeyed}
use memori.Server.Keys.{keep_ids-IsKeyed, delete_facts-IsKeyed}
use memori.Sqlite.Keys.Statements.{
  insert_entity-IsKeyed, insert_process-IsKeyed, insert_session-IsKeyed,
  insert_conversation-IsKeyed, insert_message-IsKeyed, upsert_attribute-IsKeyed,
  upsert_fact-IsKeyed, insert_mention-IsKeyed, insert_subject-IsKeyed, insert_predicate-IsKeyed,
  insert_object-IsKeyed, upsert_edge-IsKeyed, summary-IsKeyed, delete_edges-IsKeyed,
  delete_subjects-IsKeyed, delete_predicates-IsKeyed, delete_objects-IsKeyed,
}
use memori.Sqlite.Calls.{Call}
use memori.Postgresql.Conversation.{set_summary}
use memori.Postgresql.Session.{Session}
use memori.Postgresql.Session.Kept.{Holds}
use memori.Postgresql.Calls.{run_postgresql}
use memori.Postgresql.Invariant.{IsInvariant}
use memori.Postgresql.Invariant.Runs.{run_postgresql-keeps}

IsKeyed-IsInvariant : IsInvariant IsKeyed
unfolding set_summary
IsKeyed-IsInvariant = record {
  entity = insert_entity-IsKeyed;
  process = insert_process-IsKeyed;
  session = λ s db k x e p _. insert_session-IsKeyed s db k x e p;
  conversation = λ s db k i _. insert_conversation-IsKeyed s db k i;
  message = λ s db k i role type content _. insert_message-IsKeyed s db k i role type content;
  attribute = λ s db k i text uniq _. upsert_attribute-IsKeyed s db k i text uniq;
  fact = λ s db k i text e uniq _. upsert_fact-IsKeyed s db k i text e uniq;
  mention = λ s db k i j c _. insert_mention-IsKeyed s db k i j c;
  subject = insert_subject-IsKeyed;
  predicate = insert_predicate-IsKeyed;
  object = insert_object-IsKeyed;
  edge = λ s db k e a b c _. upsert_edge-IsKeyed s db k e a b c;
  summary = summary-IsKeyed;
  facts_deleted = delete_facts-IsKeyed;
  edges_deleted = delete_edges-IsKeyed;
  subjects_deleted = delete_subjects-IsKeyed;
  predicates_deleted = delete_predicates-IsKeyed;
  objects_deleted = delete_objects-IsKeyed;
  ids_kept = keep_ids-IsKeyed;
}

-- From a session both of whose databases have ids that ascend and no two rows that a uniqueness
-- constraint (other than that of `uuid`) keeps apart, any run of the PostgreSQL driver's writing
-- methods, commits and rollbacks leads to such a session, whichever statements raise and however
-- often the transaction is aborted.
pub run_postgresql-IsKeyed :
    (env : Env) (calls : List Call) (s : Session)
    → Holds IsKeyed s
    → Holds IsKeyed (run_postgresql env calls s)
run_postgresql-IsKeyed env = run_postgresql-keeps IsKeyed-IsInvariant env
