-- ===== src/Memory/Recall/Forgets.antt =====
-- After `delete_entity_memories` nothing of the entity is left.
use memori.Prelude.{
  ℕ, String, ◌≡◌, refl, Bool, true, false, Option, none, some, List, [], ◌∷◌, filter, not, arith,
  any, ◌==◌, str_eq,
}
use text.Mathlib.TextEquality.{eq_iff}
use memori.Exec.{Result, ok, err, ◌>>◌, continue}
use memori.Sql.{Row, delete, id_of}
use memori.Sql.Laws.{or_new, select_one-insert_or_ignore}
use memori.Schema.{Db, FactRow, EdgeRow}
use memori.Conn.{Env, Conn, stamp}
use memori.Conn.Quiet.{IsQuiet, execute-quiet, commit-quiet, get_or_create-quiet}
use memori.Sqlite.Entity
use memori.Sqlite.Entity.{insert_entity}
use memori.Sqlite.EntityFact
use memori.Sqlite.EntityFact.{of_entity}
use memori.Sqlite.KnowledgeGraph
use memori.Sqlite.KnowledgeGraph.Deletion.{deleted, delete_by_entity-quiet}
use memori.Memory.Config.{Config}
use memori.Memory.Recall.{forget, delete_entity_memories, resolve_external_id}
use memori.Struct.{present}

id_of-or_new :
    {R : Type 0} (o : Option (Row R)) (x : Row R) → (i : ℕ) × (id_of (or_new o x) ≡ some i)
id_of-or_new none x = (x.0, refl)
id_of-or_new (some y) x = (y.0, refl)

str_eq_refl : (s : String) → str_eq s s ≡ true
str_eq_refl s = (eq_iff s s).1 refl

found-or_new :
    {R : Type 0} (t o : Option (Row R)) (x : Row R) → t ≡ or_new o x → (i : ℕ) × (id_of t ≡ some i)
found-or_new t o x e = rw e (id_of-or_new o x)

-- After its INSERT the entity has an id.
find-insert_entity :
    (env : Env) (x : String) (n : ℕ) (db : Db)
    → (i : ℕ) × (Entity.find x (insert_entity x (stamp env n) db) ≡ some i)
unfolding insert_entity
find-insert_entity env x n db =
    found-or_new _ _ _
      (select_one-insert_or_ignore (Entity.named x) (env.gap n) _ db.entity (str_eq_refl x))

delete_facts : ℕ → Db → Db
delete_facts i db = record db { entity_fact = delete (λ row. of_entity i row.1) db.entity_fact }

-- Nothing in the database is a fact or an edge of `i`, whose external id is `x`.
pub record Forgotten (x : String) (i : ℕ) (db : Db) : Type 0 where
  pub known : Entity.find x db ≡ some i
  pub facts : any (λ (row : Row FactRow). of_entity i row.1) db.entity_fact.rows ≡ false
  pub edges : any (λ (row : Row EdgeRow). i == row.1.entity_id) db.knowledge_graph.rows ≡ false

any-filter-not :
    {R : Type 0} (p : R → Bool) (rows : List R) → any p (filter (λ r. not (p r)) rows) ≡ false
any-filter-not p [] = refl
any-filter-not p (r ∷ rows) = ground (arith, any-filter-not p rows)

deleted-Forgotten :
    (x : String) (i : ℕ) (db : Db)
    → Entity.find x db ≡ some i
    → Forgotten x i (delete_facts i (deleted i db))
unfolding delete_facts KnowledgeGraph.delete_objects KnowledgeGraph.delete_predicates
    KnowledgeGraph.delete_subjects KnowledgeGraph.delete_edges delete
deleted-Forgotten x i db h = record {
  known = h;
  facts = any-filter-not (λ (row : Row FactRow). of_entity i row.1) db.entity_fact.rows;
  edges = any-filter-not (λ (row : Row EdgeRow). i == row.1.entity_id) db.knowledge_graph.rows;
}

-- A run has returned, and has committed a database in which the entity `x` is forgotten.
abbrev pub ForgetsAll : String → Result (Unit {0}) × Conn → Type 0
ForgetsAll x (r, c) = (r ≡ ok tt) × (c.db ≡ c.committed) × (i : ℕ) × Forgotten x i c.committed

module _ (env : Env) (quiet : IsQuiet env) (x : String) where
  delete_facts-ForgetsAll :
      (i : ℕ) (db : Db) (c : Conn)
      → Entity.find x db ≡ some i
      → c.db ≡ deleted i db
      → ForgetsAll x (EntityFact.delete_by_entity env i c)
  unfolding EntityFact.delete_by_entity delete_facts
  delete_facts-ForgetsAll i db c h e =
      rw (execute-quiet env quiet (λ _ d. (tt, delete_facts i d)) c)
        (rw (commit-quiet env quiet _) (refl, refl, i, rw e (deleted-Forgotten x i db h)))

  delete_graph-ForgetsAll :
      (i : ℕ) (c : Conn)
      → Entity.find x c.db ≡ some i
      → ForgetsAll x
          ((KnowledgeGraph.delete_by_entity env i >> EntityFact.delete_by_entity env i) c)
  delete_graph-ForgetsAll i c h =
      go (KnowledgeGraph.delete_by_entity env i c) (delete_by_entity-quiet env i c quiet)
    where
      go :
          (r : Result (Unit {0}) × Conn)
          → (r.0 ≡ ok tt) × (r.1.committed ≡ deleted i c.db) × (r.1.db ≡ deleted i c.db)
          → ForgetsAll x (continue r.0 (λ _. EntityFact.delete_by_entity env i) r.1)
      go (ok u, c') w = delete_facts-ForgetsAll i c.db c' h w.2
      go (err e, c') w = cc

  forget-ForgetsAll : (c : Conn) → ForgetsAll x (forget env (some x) c)
  unfolding forget Entity.create
  forget-ForgetsAll c =
      let (i, found) = find-insert_entity env x c.step c.db in
      rw (get_or_create-quiet env quiet (insert_entity x) (Entity.find x) i c found)
        (delete_graph-ForgetsAll i _ found)

-- Where no statement fails, and with a store, `Recall.delete_entity_memories` returns for an
-- external id, given or configured, and has committed a database that has the entity and neither
-- a fact nor an edge of it.
pub delete_entity_memories-ForgetsAll :
    (env : Env) (config : Config) (external_id : Option String) (x : String) (c : Conn)
    → IsQuiet env
    → config.has_storage ≡ true
    → resolve_external_id config (present external_id) ≡ some x
    → ForgetsAll x (delete_entity_memories env config external_id c)
unfolding delete_entity_memories
delete_entity_memories-ForgetsAll env config external_id x c quiet storage named =
    rw (storage, named) (forget-ForgetsAll env quiet x c)
