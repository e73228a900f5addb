-- ===== src/Postgresql/KnowledgeGraph.antt =====
-- class KnowledgeGraph
use memori.Prelude.{ℕ, String, Bool, Option, none, some, List, [], ◌∷◌, ◌||◌, any}
use memori.Exec.{Exec, integrity_error, pure, or_raise, for_each, ◌>>=◌, ◌>>◌}
use memori.Sql.{columns}
use memori.Schema.{Db}
use memori.Conn.{Env}
use memori.Foreign.{edge_fits}
use memori.Utils.{generate_uniq}
use memori.Struct.{SemanticTriple}
use memori.Postgresql.Session.{Session, get_or_create, write, write_checked, commit}
use memori.Postgresql.Accounts.{always}
use memori.Sqlite.KnowledgeGraph.{
  insert_subject, insert_predicate, insert_object, find_subject, find_predicate, find_object,
  is_edge, upsert_edge, delete_edges, delete_subjects, delete_predicates, delete_objects,
}

-- The subject of the triple: INSERT … ON CONFLICT DO NOTHING, `commit()`, and its id
unfoldable pub get_subject : Env → String → String → Exec Session ℕ
get_subject env name type = do
  uniq ← or_raise integrity_error (generate_uniq env (name ∷ type ∷ []))
  get_or_create env always (insert_subject name type uniq) (find_subject uniq)

unfoldable pub get_predicate : Env → String → Exec Session ℕ
get_predicate env content = do
  uniq ← or_raise integrity_error (generate_uniq env (content ∷ []))
  get_or_create env always (insert_predicate content uniq) (find_predicate uniq)

unfoldable pub get_object : Env → String → String → Exec Session ℕ
get_object env name type = do
  uniq ← or_raise integrity_error (generate_uniq env (name ∷ type ∷ []))
  get_or_create env always (insert_object name type uniq) (find_object uniq)

-- The row is there, or what it refers to is.
abbrev pub edge_ready : ℕ → ℕ → ℕ → ℕ → Db → Bool
edge_ready entity_id subject_id predicate_id object_id db =
    any (columns (is_edge entity_id subject_id predicate_id object_id)) db.knowledge_graph.rows
    || edge_fits entity_id subject_id predicate_id object_id db

-- The body of the loop, which does not commit the edge. The ids are columns that are never NULL,
-- so the code's test that none of them is `None` passes.
unfoldable pub create_triple : Env → ℕ → SemanticTriple → Exec Session (Unit {0})
create_triple env entity_id triple = do
  subject_id ← get_subject env triple.subject_name triple.subject_type
  predicate_id ← get_predicate env triple.predicate
  object_id ← get_object env triple.object_name triple.object_type
  write_checked env (edge_ready entity_id subject_id predicate_id object_id)
      (upsert_edge entity_id subject_id predicate_id object_id)

unfoldable pub create : Env → ℕ → Option (List SemanticTriple) → Exec Session (Unit {0})
create env entity_id none = pure tt
create env entity_id (some triples) = for_each triples (create_triple env entity_id)

-- No edge ends at a subject, predicate or object that goes, so nothing goes with it.
unfoldable pub delete_by_entity : Env → ℕ → Exec Session (Unit {0})
delete_by_entity env entity_id = do
  write env (λ _. delete_edges entity_id)
  write env (λ _. delete_subjects)
  write env (λ _. delete_predicates)
  write env (λ _. delete_objects)
  commit env
