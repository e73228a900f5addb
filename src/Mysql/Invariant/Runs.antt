-- ===== src/Mysql/Invariant/Runs.antt =====
-- Runs of the driver keep an invariant of its statements.
use memori.Prelude.{List, [], ◌∷◌}
use memori.Exec.{Exec, pure, ◌>>=◌}
use memori.Exec.Preserves.{Preserves, Preserves-bind, Preserves-pure}
use memori.Schema.{Db}
use memori.Conn.{Env, Conn}
use memori.Conn.Quiet.{Both, Preserves-commit}
use memori.Sqlite.Calls.{
  Call, entity_create, process_create, process_attribute_create, session_create,
  conversation_create, conversation_update, message_create, entity_fact_create, entity_fact_delete,
  knowledge_graph_create, knowledge_graph_delete, connection_commit, connection_rollback,
}
use memori.Mysql.Calls.{perform, run_mysql}
use memori.Server.Kept.{Preserves-rollback}
use memori.Mysql.Invariant.{IsInvariant}
use memori.Mysql.Invariant.Methods

module _ {P : Db → Type 0} (inv : IsInvariant P) (env : Env) where
  discard :
      {A : Type 0} (m : Exec Conn A)
      → Preserves (Both P) m
      → Preserves (Both P) (m >>= λ _. pure tt)
  discard m h = Preserves-bind m (λ _. pure tt) h (λ _. Preserves-pure tt)

  perform-keeps : (call : Call) → Preserves (Both P) (perform env call)
  unfolding perform
  perform-keeps (entity_create x) = discard _ (Methods.Entity-create inv env x)
  perform-keeps (process_create x) = discard _ (Methods.Process-create inv env x)
  perform-keeps (process_attribute_create i xs) = Methods.create_attributes inv env i xs
  perform-keeps (session_create x e p) = discard _ (Methods.Session-create inv env x e p)
  perform-keeps (conversation_create i t) = discard _ (Methods.Conversation-create inv env i t)
  perform-keeps (conversation_update i text) = Methods.Conversation-update inv env i text
  perform-keeps (message_create i role type content) =
      Methods.create_message inv env i role type content
  perform-keeps (entity_fact_create e facts es c) = Methods.EntityFact-create inv env e facts es c
  perform-keeps (entity_fact_delete e) = Methods.EntityFact-delete_by_entity inv env e
  perform-keeps (knowledge_graph_create e triples) = Methods.KnowledgeGraph-create inv env e triples
  perform-keeps (knowledge_graph_delete e) = Methods.KnowledgeGraph-delete_by_entity inv env e
  perform-keeps connection_commit = Preserves-commit env
  perform-keeps connection_rollback = Preserves-rollback env inv.ids_kept

  pub run_mysql-keeps : (calls : List Call) (c : Conn) → Both P c → Both P (run_mysql env calls c)
  unfolding run_mysql
  run_mysql-keeps [] c h = h
  run_mysql-keeps (call ∷ calls) c h =
      run_mysql-keeps calls (perform env call c).1 ((perform-keeps call).at c h)
