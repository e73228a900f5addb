-- ===== src/Mysql/KnowledgeGraph/Links.antt =====
-- class KnowledgeGraph: what the step for one triple has stored when it returns.
use memori.Prelude.{
  ℕ, String, ◌≡◌, refl, Bool, true, Option, none, some, List, [], ◌∷◌, any, map, arith, any-append,
  find?-append, Bool-cases, inl, inr, ◌⊎◌, ◌==◌,
}
use memori.Exec.{Exc}
use memori.Exec.Ensures.{Ensures, Ensures-bind}
use memori.Sql.Laws.{find?-any}
use memori.Sql.{Row, Table, columns, upsert, insert, insert_or_ignore, change, select_one, id_of}
use memori.Schema.{Db}
use memori.Conn.{Env, Conn, Stamp, stamp, get_or_create, execute, commit}
use memori.Conn.Quiet.{Both, get_or_create-finds, Preserves-get_or_create}
use memori.Server.{write_checked}
use memori.Utils.{generate_uniq, normal_form}
use memori.Struct.{SemanticTriple}
use memori.Sqlite.KnowledgeGraph.{
  insert_predicate, insert_object, find_subject, find_predicate, find_object, is_edge,
}
use memori.Mysql.KnowledgeGraph.{
  get_subject, get_predicate, get_object, edge_again, upsert_edge, edge_ready, create_triple,
}

is_fault : (o : Option Exc) → (o ≡ none) ⊎ ((e : Exc) × (o ≡ some e))
is_fault none = inl refl
is_fault (some e) = inr (e, refl)

any-change :
    {R : Type 0} (q p : R → Bool) (f : R → R) (rows : List (Row R))
    → ((r : R) → q (f r) ≡ q r)
    → any (columns q) (map (change p f) rows) ≡ any (columns q) rows
any-change q p f [] same = refl
any-change q p f ((i, r) ∷ rows) same = ground (arith, same r, any-change q p f rows same)

-- An INSERT that may update hides no row, and an INSERT OR IGNORE changes no id that is found.
pub any-kept :
    {R : Type 0} (q p : R → Bool) (f : R → R) (gap : ℕ) (r : R) (t : Table R)
    → any (columns q) t.rows ≡ true
    → ((x : R) → q (f x) ≡ q x)
    → any (columns q) (upsert p f gap r t).rows ≡ true
unfolding upsert insert
any-kept q p f gap r t h same =
    ground
      (arith, any-change q p f t.rows same, any-append (columns q) t.rows ((t.next_id, r) ∷ []))

pub id-kept :
    {R : Type 0} (q p : R → Bool) (gap : ℕ) (r : R) (t : Table R) (i : ℕ)
    → id_of (select_one q t) ≡ some i
    → id_of (select_one q (insert_or_ignore p gap r t)) ≡ some i
unfolding insert_or_ignore insert
id-kept q p gap r t i h = elim (Bool-cases (any (columns q) t.rows)) [
  | inl there ↦ ground (arith, find?-append (columns q) t.rows ((t.next_id, r) ∷ []))
  | inr missing ↦ ground (arith, find?-any (columns q) t.rows missing)
]

any-upsert :
    {R : Type 0} (p : R → Bool) (f : R → R) (gap : ℕ) (r : R) (t : Table R)
    → p r ≡ true
    → ((x : R) → p (f x) ≡ p x)
    → any (columns p) (upsert p f gap r t).rows ≡ true
unfolding upsert insert
any-upsert p f gap r t h same =
    ground
      (arith, any-change p p f t.rows same, any-append (columns p) t.rows ((t.next_id, r) ∷ []))

==_same : (n : ℕ) → (n == n) ≡ true
==_same n = ground arith

module _ (env : Env) where
  abbrev pub uniq_of : List String → String
  uniq_of terms = env.sha256 (normal_form env terms)

  -- The database has the triple's subject, predicate and object, each found by the hash of its
  -- names, and an edge of the entity from the one by the other to the third.
  pub record Linked (entity_id : ℕ) (t : SemanticTriple) (db : Db) : Type 0 where
    pub subject_id : ℕ
    pub predicate_id : ℕ
    pub object_id : ℕ
    pub subject : find_subject (uniq_of (t.subject_name ∷ t.subject_type ∷ [])) db ≡ some subject_id
    pub predicate : find_predicate (uniq_of (t.predicate ∷ [])) db ≡ some predicate_id
    pub object : find_object (uniq_of (t.object_name ∷ t.object_type ∷ [])) db ≡ some object_id
    pub edge :
        any (columns (is_edge entity_id subject_id predicate_id object_id)) db.knowledge_graph.rows
        ≡ true

  pub and_both : {P Q : Db → Type 0} (c : Conn) → Both P c → Both Q c → Both (λ db. P db × Q db) c
  and_both c p q = record { committed = (p.committed, q.committed); db = (p.db, q.db) }

  -- What is found or made, with what held before and is not touched.
  get_or_create-Ensures :
      (P : Db → Type 0) (insert : Stamp → Db → Db) (find : Db → Option ℕ)
      → ((s : Stamp) (db : Db) → P db → P (insert s db))
      → Ensures
          (Both P)
          (λ i. Both (λ db. P db × (find db ≡ some i)))
          (get_or_create env insert find)
  get_or_create-Ensures P insert find keeps = record {
    at = λ c p i e.
        and_both _ ((Preserves-get_or_create env insert find keeps).at c p)
          (get_or_create-finds env insert find i c e);
  }

  write_checked-Ensures :
      (P : Db → Type 0) (L : Db → Type 0) (fits : Db → Bool) (f : Stamp → Db → Db)
      → ((s : Stamp) (db : Db) → P db → L (f s db))
      → Ensures (Both P) (λ _ c. L c.db) (write_checked env fits f)
  unfolding write_checked execute
  write_checked-Ensures P L fits f h = record {
    at = λ c p u e. elim (is_fault (env.fault c.step)) [
      | inl none_fails ↦ elim (Bool-cases (fits c.db)) [
        | inl met ↦ rw (none_fails, met) (h (stamp env c.step) c.db p.db)
        | inr unmet ↦ let q = rw (none_fails, unmet) at e in cc
      ]
      | inr (x, fails) ↦ let q = rw fails at e in cc
    ];
  }

  commit-Ensures : (L : Db → Type 0) → Ensures (λ c. L c.db) (λ (_ : Unit {0}). Both L) (commit env)
  unfolding commit
  commit-Ensures L = record {
    at = λ c p u e. elim (is_fault (env.fault c.step)) [
      | inl none_fails ↦ rw none_fails (record { committed = p; db = p })
      | inr (x, fails) ↦ let q = rw fails at e in cc
    ];
  }

  abbrev HasSubject : SemanticTriple → ℕ → Db → Type 0
  HasSubject t s db = find_subject (uniq_of (t.subject_name ∷ t.subject_type ∷ [])) db ≡ some s

  abbrev HasPredicate : SemanticTriple → ℕ → Db → Type 0
  HasPredicate t p db = find_predicate (uniq_of (t.predicate ∷ [])) db ≡ some p

  abbrev HasObject : SemanticTriple → ℕ → Db → Type 0
  HasObject t o db = find_object (uniq_of (t.object_name ∷ t.object_type ∷ [])) db ≡ some o

  subject-Ensures :
      (t : SemanticTriple)
      → Ensures
          (Both (λ db. Unit {0}))
          (λ s. Both (λ db. Unit {0} × HasSubject t s db))
          (get_subject env t.subject_name t.subject_type)
  unfolding get_subject generate_uniq
  subject-Ensures t = get_or_create-Ensures (λ db. Unit {0}) _ (find_subject _) (λ s db p. tt)

  predicate-Ensures :
      (t : SemanticTriple) (s : ℕ)
      → Ensures
          (Both (λ db. Unit {0} × HasSubject t s db))
          (λ p. Both (λ db. (Unit {0} × HasSubject t s db) × HasPredicate t p db))
          (get_predicate env t.predicate)
  unfolding get_predicate generate_uniq insert_predicate
  predicate-Ensures t s =
      get_or_create-Ensures (λ db. Unit {0} × HasSubject t s db) _ (find_predicate _) (λ n db p. p)

  object-Ensures :
      (t : SemanticTriple) (s p : ℕ)
      → Ensures
          (Both (λ db. (Unit {0} × HasSubject t s db) × HasPredicate t p db))
          (λ o.
            Both (λ db. ((Unit {0} × HasSubject t s db) × HasPredicate t p db) × HasObject t o db))
          (get_object env t.object_name t.object_type)
  unfolding get_object generate_uniq insert_object
  object-Ensures t s p =
      get_or_create-Ensures (λ db. (Unit {0} × HasSubject t s db) × HasPredicate t p db) _
        (find_object _) (λ n db h. h)

  linked :
      (entity_id s p o : ℕ) (t : SemanticTriple) (n : Stamp) (db : Db)
      → ((Unit {0} × HasSubject t s db) × HasPredicate t p db) × HasObject t o db
      → Linked entity_id t (upsert_edge entity_id s p o n db)
  unfolding upsert_edge
  linked entity_id s p o t n db h = record {
    subject_id = s;
    predicate_id = p;
    object_id = o;
    subject = h.0.0.1;
    predicate = h.0.1;
    object = h.1;
    edge =
        any-upsert (is_edge entity_id s p o) (edge_again n.now) n.gap _ db.knowledge_graph
          (ground (arith, ==_same entity_id, ==_same s, ==_same p, ==_same o)) (λ e. refl);
  }

  pub create_triple-Ensures :
      (entity_id : ℕ) (t : SemanticTriple)
      → Ensures
          (Both (λ db. Unit {0}))
          (λ _. Both (Linked entity_id t))
          (create_triple env entity_id t)
  unfolding create_triple
  create_triple-Ensures entity_id t =
      Ensures-bind (get_subject env t.subject_name t.subject_type) _ (subject-Ensures t) (λ s.
        Ensures-bind (get_predicate env t.predicate) _ (predicate-Ensures t s) (λ p.
          Ensures-bind (get_object env t.object_name t.object_type) _ (object-Ensures t s p) (λ o.
            Ensures-bind _ _
              (write_checked-Ensures _ (Linked entity_id t) (edge_ready entity_id s p o)
                (upsert_edge entity_id s p o) (linked entity_id s p o t))
              (λ u. commit-Ensures (Linked entity_id t)))))
