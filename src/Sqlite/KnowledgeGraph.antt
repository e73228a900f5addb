-- ===== src/Sqlite/KnowledgeGraph.antt =====
-- class KnowledgeGraph
pub mod Deletion
use memori.Prelude.{
  ℕ, ◌+◌, String, Bool, Option, none, some, List, [], ◌∷◌, ◌&&◌, any, not, ◌==◌, str_eq,
}
use memori.Exec.{Exec, attribute_error, integrity_error, pure, or_raise, for_each, ◌>>=◌, ◌>>◌}
use memori.Sql.{Row, Table, insert_or_ignore, upsert, select_one, delete, id_of}
use memori.Schema.{Db, SubjectRow, PredicateRow, ObjectRow, EdgeRow}
use memori.Conn.{get_or_create, Env, Conn, Stamp, write, query, commit}
use memori.Utils.{generate_uniq}
use memori.Struct.{SemanticTriple}

-- UNIQUE (uniq), and WHERE uniq = ?
abbrev pub is_subject : String → SubjectRow → Bool
is_subject uniq r = str_eq uniq r.uniq

abbrev pub is_predicate : String → PredicateRow → Bool
is_predicate uniq r = str_eq uniq r.uniq

abbrev pub is_object : String → ObjectRow → Bool
is_object uniq r = str_eq uniq r.uniq

unfoldable pub insert_subject : String → String → String → Stamp → Db → Db
insert_subject name type uniq s db = record db {
  subject =
      insert_or_ignore (is_subject uniq) s.gap
        (record {
          uuid = s.uuid;
          name = name;
          type = type;
          uniq = uniq;
          date_created = s.now;
          date_updated = none;
        })
        db.subject;
}

unfoldable pub insert_predicate : String → String → Stamp → Db → Db
insert_predicate content uniq s db = record db {
  predicate =
      insert_or_ignore (is_predicate uniq) s.gap
        (record {
          uuid = s.uuid;
          content = content;
          uniq = uniq;
          date_created = s.now;
          date_updated = none;
        })
        db.predicate;
}

unfoldable pub insert_object : String → String → String → Stamp → Db → Db
insert_object name type uniq s db = record db {
  object =
      insert_or_ignore (is_object uniq) s.gap
        (record {
          uuid = s.uuid;
          name = name;
          type = type;
          uniq = uniq;
          date_created = s.now;
          date_updated = none;
        })
        db.object;
}

-- UNIQUE (entity_id, subject_id, predicate_id, object_id)
abbrev pub is_edge : ℕ → ℕ → ℕ → ℕ → EdgeRow → Bool
is_edge entity_id subject_id predicate_id object_id r =
    entity_id == r.entity_id
    && (subject_id == r.subject_id && (predicate_id == r.predicate_id && object_id == r.object_id))

-- num_times = num_times + 1, date_last_time = datetime('now')
abbrev pub seen_again : ℕ → EdgeRow → EdgeRow
seen_again now r = record r { num_times = r.num_times + 1; date_last_time = now }

unfoldable pub upsert_edge : ℕ → ℕ → ℕ → ℕ → Stamp → Db → Db
upsert_edge entity_id subject_id predicate_id object_id s db = record db {
  knowledge_graph =
      upsert (is_edge entity_id subject_id predicate_id object_id) (seen_again s.now) s.gap
        (record {
          uuid = s.uuid;
          entity_id = entity_id;
          subject_id = subject_id;
          predicate_id = predicate_id;
          object_id = object_id;
          num_times = 1;
          date_last_time = s.now;
          date_created = s.now;
          date_updated = none;
        })
        db.knowledge_graph;
}

-- SELECT id … WHERE uniq = ?
abbrev pub find_subject : String → Db → Option ℕ
find_subject uniq db = id_of (select_one (is_subject uniq) db.subject)

abbrev pub find_predicate : String → Db → Option ℕ
find_predicate uniq db = id_of (select_one (is_predicate uniq) db.predicate)

abbrev pub find_object : String → Db → Option ℕ
find_object uniq db = id_of (select_one (is_object uniq) db.object)

-- "Insert or get subject", and so for the other two
unfoldable pub get_subject : Env → String → String → Exec Conn ℕ
get_subject env name type = do
  uniq ← or_raise integrity_error (generate_uniq env (name ∷ type ∷ []))
  get_or_create env (insert_subject name type uniq) (find_subject uniq)

unfoldable pub get_predicate : Env → String → Exec Conn ℕ
get_predicate env content = do
  uniq ← or_raise integrity_error (generate_uniq env (content ∷ []))
  get_or_create env (insert_predicate content uniq) (find_predicate uniq)

unfoldable pub get_object : Env → String → String → Exec Conn ℕ
get_object env name type = do
  uniq ← or_raise integrity_error (generate_uniq env (name ∷ type ∷ []))
  get_or_create env (insert_object name type uniq) (find_object uniq)

-- The body of the loop. The ids are columns that are never NULL, so the code's test that none
-- of them is `None` passes.
unfoldable pub create_triple : Env → ℕ → SemanticTriple → Exec Conn (Unit {0})
create_triple env entity_id triple = do
  subject_id ← get_subject env triple.subject_name triple.subject_type
  predicate_id ← get_predicate env triple.predicate
  object_id ← get_object env triple.object_name triple.object_type
  write env (upsert_edge entity_id subject_id predicate_id object_id)
  commit env

unfoldable pub create : Env → ℕ → Option (List SemanticTriple) → Exec Conn (Unit {0})
create env entity_id none = pure tt
create env entity_id (some triples) = for_each triples (create_triple env entity_id)

-- NOT EXISTS (SELECT 1 FROM memori_knowledge_graph WHERE …)
abbrev pub is_orphan : (EdgeRow → ℕ) → Table EdgeRow → ℕ → Bool
is_orphan end graph k = not (any (λ (e : Row EdgeRow). end e.1 == k) graph.rows)

unfoldable pub delete_edges : ℕ → Db → Db
delete_edges entity_id db = record db {
  knowledge_graph = delete (λ row. entity_id == row.1.entity_id) db.knowledge_graph;
}

unfoldable pub delete_subjects : Db → Db
delete_subjects db = record db {
  subject = delete (λ row. is_orphan (λ e. e.subject_id) db.knowledge_graph row.0) db.subject;
}

unfoldable pub delete_predicates : Db → Db
delete_predicates db = record db {
  predicate = delete (λ row. is_orphan (λ e. e.predicate_id) db.knowledge_graph row.0) db.predicate;
}

unfoldable pub delete_objects : Db → Db
delete_objects db = record db {
  object = delete (λ row. is_orphan (λ e. e.object_id) db.knowledge_graph row.0) db.object;
}

unfoldable pub delete_by_entity : Env → ℕ → Exec Conn (Unit {0})
delete_by_entity env entity_id = do
  write env (λ _. delete_edges entity_id)
  write env (λ _. delete_subjects)
  write env (λ _. delete_predicates)
  write env (λ _. delete_objects)
  commit env
