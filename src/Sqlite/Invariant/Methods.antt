-- ===== src/Sqlite/Invariant/Methods.antt =====
-- Each method of the driver keeps an invariant of its statements.
use memori.Prelude.{ℕ, suc, String, Option, none, some, List, [], ◌∷◌, if◌then◌else◌}
use memori.Exec.{Exec, pure}
use memori.Exec.Preserves.{
  Preserves, preserves_rules, Preserves-bind, Preserves-for_each, Preserves-pure, Preserves-if,
}
use memori.Schema.{Db}
use memori.Conn.{Env, Conn, Stamp}
use memori.Conn.Quiet.{
  Preserves-get_or_create, Both, Preserves-write, Preserves-query, Preserves-execute,
  Preserves-commit,
}
use memori.Struct.{SemanticTriple}
use memori.Sqlite.Entity
use memori.Sqlite.Process
use memori.Sqlite.Session
use memori.Sqlite.Conversation
use memori.Sqlite.EntityFact
use memori.Sqlite.KnowledgeGraph
use memori.Sqlite.Invariant.{IsInvariant}

ruleset conn_rules =
    (preserves_rules, Preserves-write, Preserves-query, Preserves-commit, Preserves-get_or_create)

module _ {P : Db → Type 0} (inv : IsInvariant P) (env : Env) where
  abbrev Keeps : {A : Type 0} → Exec Conn A → Type 0
  Keeps m = Preserves (Both P) m

  pub Entity-create : (x : String) → Keeps (Entity.create env x)
  unfolding Entity.create
  Entity-create x = search (conn_rules, λ (s : Stamp) (db : Db) (k : P db). inv.entity s db k x)

  pub Process-create : (x : String) → Keeps (Process.create env x)
  unfolding Process.create
  Process-create x = search (conn_rules, λ (s : Stamp) (db : Db) (k : P db). inv.process s db k x)

  pub Session-create : (x : String) (e p : Option ℕ) → Keeps (Session.create env x e p)
  unfolding Session.create
  Session-create x e p =
      search (conn_rules, λ (s : Stamp) (db : Db) (k : P db). inv.session s db k x e p)

  create_attribute : (i : ℕ) (text : String) → Keeps (Process.create_attribute env i text)
  unfolding Process.create_attribute
  create_attribute i text = search (
    conn_rules,
    λ (uniq : String) (s : Stamp) (db : Db) (k : P db). inv.attribute s db k i text uniq,
  )

  pub create_attributes :
      (i : ℕ) (texts : Option (List String)) → Keeps (Process.create_attributes env i texts)
  unfolding Process.create_attributes
  create_attributes i none = search conn_rules
  create_attributes i (some []) = search conn_rules
  create_attributes i (some (a ∷ texts)) = search (conn_rules, create_attribute)

  create_new : (i : ℕ) → Keeps (Conversation.create_new env i)
  unfolding Conversation.create_new
  create_new i = search (conn_rules, λ (s : Stamp) (db : Db) (k : P db). inv.conversation s db k i)

  resume :
      (i timeout : ℕ) (found : Option (ℕ × ℕ)) → Keeps (Conversation.resume env i timeout found)
  unfolding Conversation.resume
  resume i timeout none = create_new i
  resume i timeout (some (j, last)) =
      Preserves-bind _ (λ recent. if recent then pure j else Conversation.create_new env i)
        (Preserves-execute env _ (λ s db k. k))
        (λ recent.
          Preserves-if recent (pure j) (Conversation.create_new env i) (Preserves-pure j)
            (create_new i))

  pub Conversation-create : (i timeout : ℕ) → Keeps (Conversation.create env i timeout)
  unfolding Conversation.create
  Conversation-create i timeout = search (conn_rules, resume)

  pub Conversation-update : (i : ℕ) (text : Option String) → Keeps (Conversation.update env i text)
  unfolding Conversation.update
  Conversation-update i none = search conn_rules
  Conversation-update i (some text) =
      search (conn_rules, λ (s : Stamp) (db : Db) (k : P db). inv.summary db k i text)

  pub create_message :
      (i : ℕ) (role : String) (type : Option String) (content : String)
      → Keeps (Conversation.create_message env i role type content)
  unfolding Conversation.create_message
  create_message i role type content =
      search
        (conn_rules, λ (s : Stamp) (db : Db) (k : P db). inv.message s db k i role type content)

  mention_found : (e c : ℕ) (found : Option ℕ) → Keeps (EntityFact.mention_found env e c found)
  unfolding EntityFact.mention_found
  mention_found e c none = search conn_rules
  mention_found e c (some i) =
      search (conn_rules, λ (s : Stamp) (db : Db) (k : P db). inv.mention s db k e i c)

  create_mention :
      (e : ℕ) (c : Option ℕ) (uniq : String) → Keeps (EntityFact.create_mention env e c uniq)
  unfolding EntityFact.create_mention
  create_mention e none uniq = search conn_rules
  create_mention e (some c) uniq = search (conn_rules, mention_found)

  create_fact :
      (e : ℕ) (es : Option (List (List ℕ))) (c : Option ℕ) (i : ℕ) (fact : String)
      → Keeps (EntityFact.create_fact env e es c i fact)
  unfolding EntityFact.create_fact
  create_fact e es c i fact = search (
    conn_rules,
    create_mention,
    λ (uniq : String) (s : Stamp) (db : Db) (k : P db).
        inv.fact s db k e fact (env.pack (EntityFact.embedding_at es i)) uniq,
  )

  create_facts :
      (e : ℕ) (es : Option (List (List ℕ))) (c : Option ℕ) (i : ℕ) (facts : List String)
      → Keeps (EntityFact.create_facts env e es c i facts)
  unfolding EntityFact.create_facts
  create_facts e es c i [] = search conn_rules
  create_facts e es c i (fact ∷ facts) =
      Preserves-bind _ _ (create_fact e es c i fact) (λ _. create_facts e es c (suc i) facts)

  pub EntityFact-create :
      (e : ℕ) (facts : Option (List String)) (es : Option (List (List ℕ))) (c : Option ℕ)
      → Keeps (EntityFact.create env e facts es c)
  unfolding EntityFact.create
  EntityFact-create e none es c = search conn_rules
  EntityFact-create e (some []) es c = search conn_rules
  EntityFact-create e (some (fact ∷ facts)) es c = search (conn_rules, create_facts)

  pub EntityFact-delete_by_entity : (e : ℕ) → Keeps (EntityFact.delete_by_entity env e)
  unfolding EntityFact.delete_by_entity
  EntityFact-delete_by_entity e = search (
    conn_rules,
    λ (s : Stamp) (db : Db) (k : P db).
        inv.facts_deleted db k (λ row. EntityFact.of_entity e row.1),
  )

  get_subject : (name type : String) → Keeps (KnowledgeGraph.get_subject env name type)
  unfolding KnowledgeGraph.get_subject
  get_subject name type = search (
    conn_rules,
    λ (uniq : String) (s : Stamp) (db : Db) (k : P db). inv.subject s db k name type uniq,
  )

  get_predicate : (content : String) → Keeps (KnowledgeGraph.get_predicate env content)
  unfolding KnowledgeGraph.get_predicate
  get_predicate content = search (
    conn_rules,
    λ (uniq : String) (s : Stamp) (db : Db) (k : P db). inv.predicate s db k content uniq,
  )

  get_object : (name type : String) → Keeps (KnowledgeGraph.get_object env name type)
  unfolding KnowledgeGraph.get_object
  get_object name type = search (
    conn_rules,
    λ (uniq : String) (s : Stamp) (db : Db) (k : P db). inv.object s db k name type uniq,
  )

  create_triple :
      (e : ℕ) (triple : SemanticTriple) → Keeps (KnowledgeGraph.create_triple env e triple)
  unfolding KnowledgeGraph.create_triple
  create_triple e triple =
      search
        (
          conn_rules,
          get_subject,
          get_predicate,
          get_object,
          λ (a b c : ℕ) (s : Stamp) (db : Db) (k : P db). inv.edge s db k e a b c,
        )
        depth 9

  pub KnowledgeGraph-create :
      (e : ℕ) (triples : Option (List SemanticTriple)) → Keeps (KnowledgeGraph.create env e triples)
  unfolding KnowledgeGraph.create
  KnowledgeGraph-create e none = search conn_rules
  KnowledgeGraph-create e (some triples) =
      Preserves-for_each triples (KnowledgeGraph.create_triple env e) (create_triple e)

  pub KnowledgeGraph-delete_by_entity : (e : ℕ) → Keeps (KnowledgeGraph.delete_by_entity env e)
  unfolding KnowledgeGraph.delete_by_entity
  KnowledgeGraph-delete_by_entity e =
      search
        (
          conn_rules,
          λ (s : Stamp) (db : Db) (k : P db). inv.edges_deleted db k e,
          λ (s : Stamp) (db : Db) (k : P db). inv.subjects_deleted db k,
          λ (s : Stamp) (db : Db) (k : P db). inv.predicates_deleted db k,
          λ (s : Stamp) (db : Db) (k : P db). inv.objects_deleted db k,
        )
        depth 9
