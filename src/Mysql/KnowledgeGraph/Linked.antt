-- ===== src/Mysql/KnowledgeGraph/Linked.antt =====
-- class KnowledgeGraph: what `create` has stored when it returns.
use memori.Prelude.{ℕ, String, ◌≡◌, refl, some, List, [], ◌∷◌, All}
use memori.Exec.{ok, for_each}
use memori.Exec.Ensures.{Ensures, Ensures-bind}
use memori.Exec.Preserves.{Preserves, preserves_rules}
use memori.Server.Kept.{Preserves-write_checked}
use memori.Schema.{Db}
use memori.Conn.{Env, Conn, Stamp}
use memori.Conn.Quiet.{Preserves-commit, Both, Preserves-get_or_create}
use memori.Struct.{SemanticTriple}
use memori.Sqlite.KnowledgeGraph.{insert_subject, insert_predicate, insert_object, is_edge}
use memori.Mysql.KnowledgeGraph.{
  get_subject, get_predicate, get_object, edge_again, upsert_edge, create_triple, create,
}
use memori.Mysql.KnowledgeGraph.Links.{any-kept, id-kept, and_both, create_triple-Ensures, Linked}

module _ (env : Env) where
  -- A later triple takes nothing away.
  module _ (entity_id : ℕ) (t : SemanticTriple) where
    insert_subject-Linked :
        (name type uniq : String) (n : Stamp) (db : Db)
        → Linked env entity_id t db
        → Linked env entity_id t (insert_subject name type uniq n db)
    unfolding insert_subject
    insert_subject-Linked name type uniq n db h = record {
      subject_id = h.subject_id;
      predicate_id = h.predicate_id;
      object_id = h.object_id;
      subject = id-kept _ _ n.gap _ db.subject h.subject_id h.subject;
      predicate = h.predicate;
      object = h.object;
      edge = h.edge;
    }

    insert_predicate-Linked :
        (content uniq : String) (n : Stamp) (db : Db)
        → Linked env entity_id t db
        → Linked env entity_id t (insert_predicate content uniq n db)
    unfolding insert_predicate
    insert_predicate-Linked content uniq n db h = record {
      subject_id = h.subject_id;
      predicate_id = h.predicate_id;
      object_id = h.object_id;
      subject = h.subject;
      predicate = id-kept _ _ n.gap _ db.predicate h.predicate_id h.predicate;
      object = h.object;
      edge = h.edge;
    }

    insert_object-Linked :
        (name type uniq : String) (n : Stamp) (db : Db)
        → Linked env entity_id t db
        → Linked env entity_id t (insert_object name type uniq n db)
    unfolding insert_object
    insert_object-Linked name type uniq n db h = record {
      subject_id = h.subject_id;
      predicate_id = h.predicate_id;
      object_id = h.object_id;
      subject = h.subject;
      predicate = h.predicate;
      object = id-kept _ _ n.gap _ db.object h.object_id h.object;
      edge = h.edge;
    }

    upsert_edge-Linked :
        (e a b c : ℕ) (n : Stamp) (db : Db)
        → Linked env entity_id t db
        → Linked env entity_id t (upsert_edge e a b c n db)
    unfolding upsert_edge
    upsert_edge-Linked e a b c n db h = record {
      subject_id = h.subject_id;
      predicate_id = h.predicate_id;
      object_id = h.object_id;
      subject = h.subject;
      predicate = h.predicate;
      object = h.object;
      edge =
          any-kept (is_edge entity_id h.subject_id h.predicate_id h.object_id) (is_edge e a b c)
            (edge_again n.now) n.gap _ db.knowledge_graph h.edge (λ x. refl);
    }

    create_triple-Preserves :
        (u : SemanticTriple)
        → Preserves (Both (Linked env entity_id t)) (create_triple env entity_id u)
    unfolding create_triple get_subject get_predicate get_object
    create_triple-Preserves u =
        search
          (
            preserves_rules, Preserves-get_or_create, Preserves-write_checked, Preserves-commit,
            insert_subject-Linked, insert_predicate-Linked, insert_object-Linked,
            upsert_edge-Linked,
          )
          depth 9

  Both-map : {P Q : Db → Type 0} (c : Conn) → ((db : Db) → P db → Q db) → Both P c → Both Q c
  Both-map c f b = record { committed = f c.committed b.committed; db = f c.db b.db }

  AllLinked : ℕ → List SemanticTriple → Db → Type 0
  AllLinked entity_id triples db = All (λ t. Linked env entity_id t db) triples

  first-Ensures :
      (entity_id : ℕ) (P : Db → Type 0) (t : SemanticTriple)
      → Preserves (Both P) (create_triple env entity_id t)
      → Ensures
          (Both P)
          (λ _. Both (λ db. P db × Linked env entity_id t db))
          (create_triple env entity_id t)
  first-Ensures entity_id P t keeps = record {
    at = λ c p u e.
        and_both env _ (keeps.at c p)
          ((create_triple-Ensures env entity_id t).at c (record { committed = tt; db = tt }) u e);
  }

  both-Preserves :
      (entity_id : ℕ) (P : Db → Type 0) (t u : SemanticTriple)
      → Preserves (Both P) (create_triple env entity_id u)
      → Preserves (Both (λ db. P db × Linked env entity_id t db)) (create_triple env entity_id u)
  both-Preserves entity_id P t u keeps = record {
    at = λ c b.
        and_both env _ (keeps.at c (Both-map c (λ db q. q.0) b))
          ((create_triple-Preserves entity_id t u).at c (Both-map c (λ db q. q.1) b));
  }

  -- The loop, with what its steps keep.
  triples-Ensures :
      (entity_id : ℕ) (P : Db → Type 0) (triples : List SemanticTriple)
      → ((u : SemanticTriple) → Preserves (Both P) (create_triple env entity_id u))
      → Ensures
          (Both P)
          (λ _. Both (λ db. P db × AllLinked entity_id triples db))
          (for_each triples (create_triple env entity_id))
  unfolding AllLinked
  triples-Ensures entity_id P [] keeps = record { at = λ c p u e. Both-map c (λ db q. (q, tt)) p }
  triples-Ensures entity_id P (t ∷ triples) keeps = record {
    at = λ c p u e.
        Both-map _ (λ db q. (q.0.0, (q.0.1, q.1)))
          ((Ensures-bind (create_triple env entity_id t) _ (first-Ensures entity_id P t (keeps t))
              (λ v.
                triples-Ensures entity_id (λ db. P db × Linked env entity_id t db) triples
                  (λ x. both-Preserves entity_id P t x (keeps x)))).at
            c p u e);
  }

-- When `KnowledgeGraph.create` of the MySQL driver returns, then both in the committed and in the
-- open database each of the given triples has its subject, predicate and object, found by the hashes
-- of their names, and an edge of the entity from that subject by that predicate to that object.
pub create-Linked :
    (env : Env) (entity_id : ℕ) (triples : List SemanticTriple) (c : Conn)
    → (create env entity_id (some triples) c).0 ≡ ok tt
    → Both
        (λ db. All (λ t. Linked env entity_id t db) triples)
        (create env entity_id (some triples) c).1
unfolding create AllLinked
create-Linked env entity_id triples c done =
    Both-map env _ (λ db q. q.1)
      ((triples-Ensures env entity_id (λ db. Unit {0}) triples
          (λ u. record { at = λ s h. record { committed = tt; db = tt } })).at
        c (record { committed = tt; db = tt }) tt done)
