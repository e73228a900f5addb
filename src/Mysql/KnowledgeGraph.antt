-- ===== src/Mysql/KnowledgeGraph.antt =====
-- class KnowledgeGraph
pub mod Links
pub mod Linked
use memori.Prelude.{ℕ, ◌+◌, String, Bool, Option, none, some, List, [], ◌∷◌, ◌||◌, any}
use memori.Exec.{Exec, integrity_error, pure, or_raise, for_each, ◌>>=◌, ◌>>◌}
use memori.Sql.{upsert, columns}
use memori.Schema.{Db, EdgeRow}
use memori.Conn.{Env, Conn, Stamp, get_or_create, write, commit}
use memori.Server.{write_checked}
use memori.Foreign.{edge_fits}
use memori.Utils.{generate_uniq}
use memori.Struct.{SemanticTriple}
use memori.Sqlite.KnowledgeGraph.{
  insert_subject, insert_predicate, insert_object, find_subject, find_predicate, find_object,
  is_edge, delete_edges, delete_subjects, delete_predicates, delete_objects,
}

-- The subject of the triple: INSERT IGNORE, `commit()`, and its id
unfoldable pub get_subject : Env → String → String → Exec Conn ℕ
get_subject env name type = do
  uniq ← or_raise integrity_error (generate_uniq env (name ∷ type ∷ []))
  get_or_create env (insert_subject name type uniq) (find_subject uniq)

unfoldable pub get_predicate : Env → String → Exec Conn ℕ
get_predicate env content = do
  uniq ← or_raise integrity_error (generate_uniq env (content ∷ []))
  get_or_create env (insert_predicate content uniq) (find_predicate uniq)

unfoldable pub get_object : Env → String → String → Exec Conn ℕ
get_object env name type = do
  uniq ← or_raise integrity_error (generate_uniq env (name ∷ type ∷ []))
  get_or_create env (insert_object name type uniq) (find_object uniq)

-- num_times = num_times + 1, date_last_time = current_timestamp(); ON UPDATE sets date_updated
abbrev pub edge_again : ℕ → EdgeRow → EdgeRow
edge_again now r = record r {
  num_times = r.num_times + 1;
  date_last_time = now;
  date_updated = some now;
}

unfoldable pub upsert_edge : ℕ → ℕ → ℕ → ℕ → Stamp → Db → Db
upsert_edge entity_id subject_id predicate_id object_id s db = record db {
  knowledge_graph =
      upsert (is_edge entity_id subject_id predicate_id object_id) (edge_again s.now) s.gap
        (record {
          uuid = s.uuid;
          entity_id = entity_id;
          subject_id = subject_id;
          predicate_id = predicate_id;
          object_id = object_id;
          num_times = 1;
          date_last_time = s.now;
          date_created = s.now;
          date_updated = none;
        })
        db.knowledge_graph;
}

-- The row is there, or what it refers to is.
abbrev pub edge_ready : ℕ → ℕ → ℕ → ℕ → Db → Bool
edge_ready entity_id subject_id predicate_id object_id db =
    any (columns (is_edge entity_id subject_id predicate_id object_id)) db.knowledge_graph.rows
    || edge_fits entity_id subject_id predicate_id object_id db

-- The body of the loop. The ids are columns that are never NULL, so the code's test that none of
-- them is `None` passes.
unfoldable pub create_triple : Env → ℕ → SemanticTriple → Exec Conn (Unit {0})
create_triple env entity_id triple = do
  subject_id ← get_subject env triple.subject_name triple.subject_type
  predicate_id ← get_predicate env triple.predicate
  object_id ← get_object env triple.object_name triple.object_type
  write_checked env (edge_ready entity_id subject_id predicate_id object_id)
      (upsert_edge entity_id subject_id predicate_id object_id)
  commit env

unfoldable pub create : Env → ℕ → Option (List SemanticTriple) → Exec Conn (Unit {0})
create env entity_id none = pure tt
create env entity_id (some triples) = for_each triples (create_triple env entity_id)

-- No edge ends at a subject, predicate or object that goes, so nothing goes with it.
unfoldable pub delete_by_entity : Env → ℕ → Exec Conn (Unit {0})
delete_by_entity env entity_id = do
  write env (λ _. delete_edges entity_id)
  write env (λ _. delete_subjects)
  write env (λ _. delete_predicates)
  write env (λ _. delete_objects)
  commit env
