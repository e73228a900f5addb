-- ===== src/Sqlite/Calls.antt =====
-- The methods of the driver that change the database, as values, and runs of them.
use memori.Prelude.{ℕ, String, Option, List, [], ◌∷◌}
use memori.Exec.{Exec, pure, ◌>>=◌}
use memori.Conn.{Env, Conn, commit, rollback}
use memori.Struct.{SemanticTriple}
use memori.Sqlite.Entity
use memori.Sqlite.Process
use memori.Sqlite.Session
use memori.Sqlite.Conversation
use memori.Sqlite.EntityFact
use memori.Sqlite.KnowledgeGraph

pub data Call : Type 0 where
  entity_create : String → Call
  process_create : String → Call
  process_attribute_create : ℕ → Option (List String) → Call
  session_create : String → Option ℕ → Option ℕ → Call
  conversation_create : ℕ → ℕ → Call
  conversation_update : ℕ → Option String → Call
  message_create : ℕ → String → Option String → String → Call
  entity_fact_create : ℕ → Option (List String) → Option (List (List ℕ)) → Option ℕ → Call
  entity_fact_delete : ℕ → Call
  knowledge_graph_create : ℕ → Option (List SemanticTriple) → Call
  knowledge_graph_delete : ℕ → Call
  connection_commit connection_rollback : Call

module _ (env : Env) where
  unfoldable pub perform : Call → Exec Conn (Unit {0})
  perform (entity_create x) = Entity.create env x >>= λ _. pure tt
  perform (process_create x) = Process.create env x >>= λ _. pure tt
  perform (process_attribute_create i xs) = Process.create_attributes env i xs
  perform (session_create x e p) = Session.create env x e p >>= λ _. pure tt
  perform (conversation_create i t) = Conversation.create env i t >>= λ _. pure tt
  perform (conversation_update i text) = Conversation.update env i text
  perform (message_create i role type content) = Conversation.create_message env i role type content
  perform (entity_fact_create e facts es c) = EntityFact.create env e facts es c
  perform (entity_fact_delete e) = EntityFact.delete_by_entity env e
  perform (knowledge_graph_create e triples) = KnowledgeGraph.create env e triples
  perform (knowledge_graph_delete e) = KnowledgeGraph.delete_by_entity env e
  perform connection_commit = commit env
  perform connection_rollback = rollback env

  -- One call after another; one that raises leaves what it had done, and the run goes on.
  unfoldable pub run_calls : List Call → Conn → Conn
  run_calls [] c = c
  run_calls (call ∷ calls) c = run_calls calls (perform call c).1
