-- ===== src/Sqlite/KnowledgeGraph/Deletion.antt =====
-- Deleting an entity's graph removes its edges and what no edge needs, and nothing else.
use memori.Prelude.{
  ==_sound, any-append, All-split, ℕ, ◌≡◌, refl, Bool, true, List, [], ◌∷◌, ◌&&◌, any, filter, not,
  arith, Bool-cases, inl, inr, ◌==◌, All,
}
use mathlib.Core.Bool.{not-not}
use memori.Exec.{ok}
use memori.Sql.{Row, Table, delete}
use memori.Schema.{Db, EdgeRow}
use memori.Conn.{Env, Conn}
use memori.Conn.Quiet.{IsQuiet, execute-quiet, commit-quiet}
use memori.Sqlite.KnowledgeGraph.{
  is_orphan, delete_edges, delete_subjects, delete_predicates, delete_objects, delete_by_entity,
}

-- `k` is an id of the table.
abbrev pub has_id : {R : Type 0} → ℕ → List (Row R) → Bool
has_id k rows = any (λ (row : Row _). row.0 == k) rows

-- Every edge's ends are rows of the three tables.
pub record IsClosed (db : Db) : Type 0 where
  pub subjects :
      All
        (λ (e : Row EdgeRow). has_id e.1.subject_id db.subject.rows ≡ true)
        db.knowledge_graph.rows
  pub predicates :
      All
        (λ (e : Row EdgeRow). has_id e.1.predicate_id db.predicate.rows ≡ true)
        db.knowledge_graph.rows
  pub objects :
      All (λ (e : Row EdgeRow). has_id e.1.object_id db.object.rows ≡ true) db.knowledge_graph.rows

-- Some edge of the graph ends at `k`.
abbrev pub is_used : (EdgeRow → ℕ) → ℕ → List (Row EdgeRow) → Bool
is_used end k edges = any (λ (e : Row EdgeRow). end e.1 == k) edges

pub has_id-filter :
    {R : Type 0} (end : EdgeRow → ℕ) (edges : Table EdgeRow) (k : ℕ) (rows : List (Row R))
    → has_id k (filter (λ row. not (is_orphan end edges row.0)) rows)
      ≡ (has_id k rows && is_used end k edges.rows)
has_id-filter end edges k [] = refl
has_id-filter end edges k ((j, r) ∷ rows) = elim (Bool-cases (j == k)) [
  | inl same ↦ rw (==_sound j k same) (ground (arith, has_id-filter end edges k rows))
  | inr other ↦ ground (arith, other, has_id-filter end edges k rows)
]

-- The graph that is left.
abbrev pub others : ℕ → Db → List (Row EdgeRow)
others entity_id db =
    filter (λ (e : Row EdgeRow). not (entity_id == e.1.entity_id)) db.knowledge_graph.rows

-- The four DELETE statements.
abbrev pub deleted : ℕ → Db → Db
deleted entity_id db =
    delete_objects (delete_predicates (delete_subjects (delete_edges entity_id db)))

pub delete_by_entity-quiet :
    (env : Env) (entity_id : ℕ) (c : Conn)
    → IsQuiet env
    → let (r, c') = delete_by_entity env entity_id c in
      (r ≡ ok tt) × (c'.committed ≡ deleted entity_id c.db) × (c'.db ≡ deleted entity_id c.db)
unfolding delete_by_entity
delete_by_entity-quiet env entity_id c quiet =
    rw (execute-quiet env quiet (λ _ db. (tt, delete_edges entity_id db)) c) (
      rw (execute-quiet env quiet (λ _ db. (tt, delete_subjects db)) _) (
        rw (execute-quiet env quiet (λ _ db. (tt, delete_predicates db)) _) (
          rw (execute-quiet env quiet (λ _ db. (tt, delete_objects db)) _)
            (rw (commit-quiet env quiet _) (refl, refl, refl)))))

-- What the deletion of an entity's graph leaves: of the edges those of other entities, and of the
-- subjects, predicates and objects those that were there and that an edge left ends at.
pub record Remains (entity_id : ℕ) (db db' : Db) : Type 0 where
  pub edges : db'.knowledge_graph.rows ≡ others entity_id db
  pub subjects :
      (k : ℕ)
      → has_id k db'.subject.rows
        ≡ (has_id k db.subject.rows && is_used (λ e. e.subject_id) k (others entity_id db))
  pub predicates :
      (k : ℕ)
      → has_id k db'.predicate.rows
        ≡ (has_id k db.predicate.rows && is_used (λ e. e.predicate_id) k (others entity_id db))
  pub objects :
      (k : ℕ)
      → has_id k db'.object.rows
        ≡ (has_id k db.object.rows && is_used (λ e. e.object_id) k (others entity_id db))

-- The rows whose id an edge left ends at.
abbrev pub used_rows : {R : Type 0} → (EdgeRow → ℕ) → ℕ → Db → List (Row R) → List (Row R)
used_rows end entity_id db rows = filter (λ row. is_used end row.0 (others entity_id db)) rows

filter-used :
    {R : Type 0} (end : EdgeRow → ℕ) (entity_id : ℕ) (db : Db) (rows : List (Row R))
    → filter (λ row. not (is_orphan end (delete_edges entity_id db).knowledge_graph row.0)) rows
      ≡ used_rows end entity_id db rows
unfolding delete_edges delete
filter-used end entity_id db [] = refl
filter-used end entity_id db (row ∷ rows) =
    rw (not-not (is_used end row.0 (others entity_id db)), filter-used end entity_id db rows) refl

-- Only rows of the four tables go, and of them only those that must: the rows kept are as they were
-- and in their order, and all else of the database is as it was.
pub record IsOnly (entity_id : ℕ) (db db' : Db) : Type 0 where
  pub untouched : db' ≡ record db {
    knowledge_graph = record db.knowledge_graph { rows = others entity_id db };
    subject = record db.subject {
      rows = used_rows (λ e. e.subject_id) entity_id db db.subject.rows;
    };
    predicate = record db.predicate {
      rows = used_rows (λ e. e.predicate_id) entity_id db db.predicate.rows;
    };
    object = record db.object { rows = used_rows (λ e. e.object_id) entity_id db db.object.rows };
  }

deleted-IsOnly : (entity_id : ℕ) (db : Db) → IsOnly entity_id db (deleted entity_id db)
unfolding delete_objects delete_predicates delete_subjects delete_edges delete
deleted-IsOnly entity_id db = record {
  untouched =
      simp
        (
          filter-used (λ e. e.subject_id) entity_id db db.subject.rows,
          filter-used (λ e. e.predicate_id) entity_id db db.predicate.rows,
          filter-used (λ e. e.object_id) entity_id db db.object.rows,
        )
        refl;
}

deleted-Remains : (entity_id : ℕ) (db : Db) → Remains entity_id db (deleted entity_id db)
unfolding delete_objects delete_predicates delete_subjects delete_edges delete
deleted-Remains entity_id db = record {
  edges = refl;
  subjects = λ k.
      has_id-filter (λ e. e.subject_id) (delete_edges entity_id db).knowledge_graph k
        db.subject.rows;
  predicates = λ k.
      has_id-filter (λ e. e.predicate_id) (delete_edges entity_id db).knowledge_graph k
        db.predicate.rows;
  objects = λ k.
      has_id-filter (λ e. e.object_id) (delete_edges entity_id db).knowledge_graph k db.object.rows;
}

-- Where no statement fails, `KnowledgeGraph.delete_by_entity` returns and commits, and the database is
-- as it was except that the entity's edges are gone, and of the subjects, predicates and objects
-- those at which no edge left ends.
pub delete_by_entity-IsOnly :
    (env : Env) (entity_id : ℕ) (c : Conn)
    → IsQuiet env
    → let (r, c') = delete_by_entity env entity_id c in
      (r ≡ ok tt) × IsOnly entity_id c.db c'.committed × IsOnly entity_id c.db c'.db
delete_by_entity-IsOnly env entity_id c quiet =
    let run = delete_by_entity-quiet env entity_id c quiet in
    (run.0, rw run.1 (deleted-IsOnly entity_id c.db), rw run.2 (deleted-IsOnly entity_id c.db))

delete_by_entity-Remains :
    (env : Env) (entity_id : ℕ) (c : Conn)
    → IsQuiet env
    → Remains entity_id c.db (delete_by_entity env entity_id c).1.db
delete_by_entity-Remains env entity_id c quiet =
    let run = delete_by_entity-quiet env entity_id c quiet in
    rw run.2 (deleted-Remains entity_id c.db)

All-used :
    {R : Type 0} (end : EdgeRow → ℕ) (rows rows' : List (Row R)) (keep : Row EdgeRow → Bool)
    (edges used : List (Row EdgeRow))
    → ((k : ℕ) → has_id k rows' ≡ (has_id k rows && is_used end k used))
    → All (λ (e : Row EdgeRow). has_id (end e.1) rows ≡ true) edges
    → All (λ (e : Row EdgeRow). is_used end (end e.1) used ≡ true) (filter keep edges)
    → All (λ (e : Row EdgeRow). has_id (end e.1) rows' ≡ true) (filter keep edges)
All-used end rows rows' keep [] used left was uses = tt
All-used end rows rows' keep (e ∷ edges) used left was uses = elim (Bool-cases (keep e)) [
  | inl kept ↦
      let u = rw kept at uses in
      rw kept (
        rw (left (end e.1), was.0, u.0) refl,
        All-used end rows rows' keep edges used left was.1 u.1,
      )
  | inr gone ↦ rw gone (All-used end rows rows' keep edges used left was.1 (rw gone at uses))
]

-- An edge of a list is used by the list.
pub All-is_used :
    (end : EdgeRow → ℕ) (edges : List (Row EdgeRow))
    → All (λ (e : Row EdgeRow). is_used end (end e.1) edges ≡ true) edges
All-is_used end edges = All-split [] edges (λ front e back split.
    rw (← split)
      (ground (arith, any-append (λ (d : Row EdgeRow). end d.1 == end e.1) front (e ∷ back))))

-- A database whose edges all end at rows that exist keeps that property when an entity's graph is
-- deleted and no statement fails: what one entity's deletion takes away, no other entity's edge
-- refers to.
pub delete_by_entity-IsClosed :
    (env : Env) (entity_id : ℕ) (c : Conn)
    → IsQuiet env
    → IsClosed c.db
    → IsClosed (delete_by_entity env entity_id c).1.db
delete_by_entity-IsClosed env entity_id c quiet h =
    let left = delete_by_entity-Remains env entity_id c quiet in
    let keep : Row EdgeRow → Bool = λ e. not (entity_id == e.1.entity_id) in
    record {
      subjects = rw left.edges (
          All-used (λ e. e.subject_id) c.db.subject.rows _ keep c.db.knowledge_graph.rows
            (others entity_id c.db) left.subjects h.subjects
            (All-is_used (λ e. e.subject_id) (others entity_id c.db)));
      predicates = rw left.edges (
          All-used (λ e. e.predicate_id) c.db.predicate.rows _ keep c.db.knowledge_graph.rows
            (others entity_id c.db) left.predicates h.predicates
            (All-is_used (λ e. e.predicate_id) (others entity_id c.db)));
      objects = rw left.edges (
          All-used (λ e. e.object_id) c.db.object.rows _ keep c.db.knowledge_graph.rows
            (others entity_id c.db) left.objects h.objects
            (All-is_used (λ e. e.object_id) (others entity_id c.db)));
    }
