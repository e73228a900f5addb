-- ===== src/Mysql/Calls.antt =====
-- The driver's methods that change the database, by the calls of Sqlite/Calls, and runs of them.
use memori.Prelude.{List, [], ◌∷◌}
use memori.Exec.{Exec, pure, ◌>>=◌}
use memori.Conn.{Env, Conn, commit}
use memori.Server.{rollback}
use memori.Sqlite.Calls.{
  Call, entity_create, process_create, process_attribute_create, session_create,
  conversation_create, conversation_update, message_create, entity_fact_create, entity_fact_delete,
  knowledge_graph_create, knowledge_graph_delete, connection_commit, connection_rollback,
}
use memori.Mysql.Accounts
use memori.Mysql.Conversation
use memori.Mysql.EntityFact
use memori.Mysql.KnowledgeGraph

module _ (env : Env) where
  unfoldable pub perform : Call → Exec Conn (Unit {0})
  perform (entity_create x) = Accounts.create_entity env x >>= λ _. pure tt
  perform (process_create x) = Accounts.create_process env x >>= λ _. pure tt
  perform (process_attribute_create i xs) = Accounts.create_attributes env i xs
  perform (session_create x e p) = Accounts.create_session env x e p >>= λ _. pure tt
  perform (conversation_create i t) = Conversation.create env i t >>= λ _. pure tt
  perform (conversation_update i text) = Conversation.update env i text
  perform (message_create i role type content) = Conversation.create_message env i role type content
  perform (entity_fact_create e facts es c) = EntityFact.create env e facts es c
  perform (entity_fact_delete e) = EntityFact.delete_by_entity env e
  perform (knowledge_graph_create e triples) = KnowledgeGraph.create env e triples
  perform (knowledge_graph_delete e) = KnowledgeGraph.delete_by_entity env e
  perform connection_commit = commit env
  perform connection_rollback = rollback env

  -- One call after another; one that raises leaves what it had done, and the run goes on.
  unfoldable pub run_mysql : List Call → Conn → Conn
  run_mysql [] c = c
  run_mysql (call ∷ calls) c = run_mysql calls (perform call c).1
