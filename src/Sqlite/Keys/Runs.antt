-- ===== src/Sqlite/Keys/Runs.antt =====
-- The uniqueness constraints and the ids over any run of the driver.
use memori.Prelude.{List}
use memori.Conn.{Env, Conn}
use memori.Conn.Quiet.{Both}
use memori.Sqlite.Calls.{Call, run_calls}
use memori.Sqlite.Invariant.{IsInvariant}
use memori.Sqlite.Invariant.Runs.{run_calls-keeps}
use memori.Sqlite.Keys.{IsKeyed}
use memori.Sqlite.Keys.Statements.{
  insert_entity-IsKeyed, insert_process-IsKeyed, insert_session-IsKeyed,
  insert_conversation-IsKeyed, insert_message-IsKeyed, upsert_attribute-IsKeyed,
  upsert_fact-IsKeyed, insert_mention-IsKeyed, insert_subject-IsKeyed, insert_predicate-IsKeyed,
  insert_object-IsKeyed, upsert_edge-IsKeyed, summary-IsKeyed, delete_facts-IsKeyed,
  delete_edges-IsKeyed, delete_subjects-IsKeyed, delete_predicates-IsKeyed, delete_objects-IsKeyed,
}

pub IsKeyed-IsInvariant : IsInvariant IsKeyed
IsKeyed-IsInvariant = record {
  entity = insert_entity-IsKeyed;
  process = insert_process-IsKeyed;
  session = insert_session-IsKeyed;
  conversation = insert_conversation-IsKeyed;
  message = insert_message-IsKeyed;
  attribute = upsert_attribute-IsKeyed;
  fact = upsert_fact-IsKeyed;
  mention = insert_mention-IsKeyed;
  subject = insert_subject-IsKeyed;
  predicate = insert_predicate-IsKeyed;
  object = insert_object-IsKeyed;
  edge = upsert_edge-IsKeyed;
  summary = summary-IsKeyed;
  facts_deleted = delete_facts-IsKeyed;
  edges_deleted = delete_edges-IsKeyed;
  subjects_deleted = delete_subjects-IsKeyed;
  predicates_deleted = delete_predicates-IsKeyed;
  objects_deleted = delete_objects-IsKeyed;
}

-- From a connection both of whose databases have ids that ascend and no two rows that a
-- uniqueness constraint (other than that of `uuid`) keeps apart, any run of the driver's writing
-- methods, commits and rollbacks leads to such a connection, whichever statements raise and
-- whatever ids rejected inserts use up.
pub run_calls-IsKeyed :
    (env : Env) (calls : List Call) (c : Conn)
    → Both IsKeyed c
    → Both IsKeyed (run_calls env calls c)
run_calls-IsKeyed env = run_calls-keeps IsKeyed-IsInvariant env
