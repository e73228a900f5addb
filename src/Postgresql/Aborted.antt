-- ===== src/Postgresql/Aborted.antt =====
-- A transaction that a failed statement aborted: what the driver's methods do until it ends.
use memori.Prelude.{ℕ, String, Bool, true, false, Option, none, some, List, [], ◌∷◌, ◌≡◌, refl, All}
use memori.Exec.{Exc, other, err, Exec, pure, or_raise, for_each, ◌>>=◌}
use memori.Schema.{Db}
use memori.Conn.{Env, Stamp}
use memori.Struct.{SemanticTriple}
use memori.Sqlite.Calls.{
  Call, entity_create, process_create, process_attribute_create, session_create,
  conversation_create, conversation_update, message_create, entity_fact_create, entity_fact_delete,
  knowledge_graph_create, knowledge_graph_delete, connection_commit, connection_rollback,
}
use memori.Server.{checked}
use memori.Postgresql.Session.{Session, statement, query, write, write_checked, get_or_create}
use memori.Postgresql.Accounts
use memori.Postgresql.Conversation
use memori.Postgresql.EntityFact
use memori.Postgresql.KnowledgeGraph
use memori.Postgresql.Calls.{perform, run_postgresql}

-- It ends the transaction.
abbrev pub ends : Call → Bool
ends connection_commit = true
ends connection_rollback = true
ends _ = false

-- It raises and does nothing.
record Refuses {A : Type 0} (m : Exec Session A) (s : Session) : Type 0 where
  exc : Exc
  same : m s ≡ (err exc, s)

-- It does nothing, and may raise.
record Leaves {A : Type 0} (m : Exec Session A) (s : Session) : Type 0 where
  same : (m s).1 ≡ s

module _ {A B : Type 0} {s : Session} where
  Refuses-bind : (m : Exec Session A) (f : A → Exec Session B) → Refuses m s → Refuses (m >>= f) s
  Refuses-bind m f h = record { exc = h.exc; same = rw h.same refl }

  Refuses-or_raise :
      (e : Exc) (o : Option A) (f : A → Exec Session B)
      → ((a : A) → Refuses (f a) s)
      → Refuses (or_raise e o >>= f) s
  Refuses-or_raise e none f h = record { exc = e; same = refl }
  Refuses-or_raise e (some a) f h = record { exc = (h a).exc; same = (h a).same }

module _ {A : Type 0} {s : Session} where
  Leaves-pure : (a : A) → Leaves (pure a) s
  Leaves-pure a = record { same = refl }

  Leaves-Refuses : (m : Exec Session A) → Refuses m s → Leaves m s
  Leaves-Refuses m h = record { same = rw h.same refl }

Leaves-for_each :
    {A : Type 0} {s : Session} (xs : List A) (f : A → Exec Session (Unit {0}))
    → ((x : A) → Refuses (f x) s)
    → Leaves (for_each xs f) s
Leaves-for_each [] f h = record { same = refl }
Leaves-for_each (x ∷ xs) f h = record { same = rw (h x).same refl }

module _ (env : Env) (s : Session) (aborted : s.aborted ≡ true) where
  Refuses-statement : {A : Type 0} (f : Stamp → Db → Option A × Db) → Refuses (statement env f) s
  unfolding statement
  Refuses-statement f = record { exc = other; same = rw aborted refl }

  Refuses-query : {A : Type 0} (f : Db → A) → Refuses (query env f) s
  unfolding query
  Refuses-query f = Refuses-statement (λ _ db. (some (f db), db))

  Refuses-write : (f : Stamp → Db → Db) → Refuses (write env f) s
  unfolding write
  Refuses-write f = Refuses-statement (λ s db. (some tt, f s db))

  Refuses-write_checked :
      (fits : Db → Bool) (f : Stamp → Db → Db) → Refuses (write_checked env fits f) s
  unfolding write_checked
  Refuses-write_checked fits f = Refuses-statement (checked fits f)

  Refuses-get_or_create :
      (fits : Db → Bool) (f : Stamp → Db → Db) (find : Db → Option ℕ)
      → Refuses (get_or_create env fits f find) s
  unfolding get_or_create
  Refuses-get_or_create fits f find = search (Refuses-bind, Refuses-write_checked)

  fact :
      (e : ℕ) (es : Option (List (List ℕ))) (c : Option ℕ) (i : ℕ) (text : String)
      → Refuses (EntityFact.create_fact env e es c i text) s
  unfolding EntityFact.create_fact
  fact e es c i text = search (Refuses-or_raise, Refuses-bind, Refuses-write_checked)

  triple : (e : ℕ) (t : SemanticTriple) → Refuses (KnowledgeGraph.create_triple env e t) s
  unfolding KnowledgeGraph.create_triple KnowledgeGraph.get_subject
  triple e t = search (Refuses-or_raise, Refuses-bind, Refuses-get_or_create)

  attribute : (i : ℕ) (text : String) → Refuses (Accounts.create_attribute env i text) s
  unfolding Accounts.create_attribute
  attribute i text = search (Refuses-or_raise, Refuses-write_checked)

  perform-Leaves : (call : Call) → ends call ≡ false → Leaves (perform env call) s
  unfolding perform Accounts.create_entity Accounts.create_process Accounts.create_attributes
      Accounts.create_session Conversation.create Conversation.update Conversation.create_message
      EntityFact.create EntityFact.create_facts EntityFact.delete_by_entity KnowledgeGraph.create
      KnowledgeGraph.delete_by_entity
  perform-Leaves (entity_create x) h = search (Leaves-Refuses, Refuses-bind, Refuses-get_or_create)
  perform-Leaves (process_create x) h = search (Leaves-Refuses, Refuses-bind, Refuses-get_or_create)
  perform-Leaves (process_attribute_create i none) h = search Leaves-pure
  perform-Leaves (process_attribute_create i (some xs)) h = Leaves-for_each xs _ (attribute i)
  perform-Leaves (session_create x e p) h =
      search (Leaves-Refuses, Refuses-bind, Refuses-get_or_create)
  perform-Leaves (conversation_create i t) h = search (Leaves-Refuses, Refuses-bind, Refuses-query)
  perform-Leaves (conversation_update i none) h = search Leaves-pure
  perform-Leaves (conversation_update i (some text)) h =
      search (Leaves-Refuses, Refuses-bind, Refuses-write)
  perform-Leaves (message_create i role type content) h =
      search (Leaves-Refuses, Refuses-write_checked)
  perform-Leaves (entity_fact_create e none es c) h = search Leaves-pure
  perform-Leaves (entity_fact_create e (some []) es c) h = search Leaves-pure
  perform-Leaves (entity_fact_create e (some (text ∷ facts)) es c) h =
      search (Leaves-Refuses, Refuses-bind, fact)
  perform-Leaves (entity_fact_delete e) h = search (Leaves-Refuses, Refuses-bind, Refuses-write)
  perform-Leaves (knowledge_graph_create e none) h = search Leaves-pure
  perform-Leaves (knowledge_graph_create e (some triples)) h = Leaves-for_each triples _ (triple e)
  perform-Leaves (knowledge_graph_delete e) h = search (Leaves-Refuses, Refuses-bind, Refuses-write)
  perform-Leaves connection_commit h = cc
  perform-Leaves connection_rollback h = cc

-- In a session whose transaction is aborted, any run of the PostgreSQL driver's methods that does
-- not commit or roll back leaves the session as it is: its databases, the number of statements
-- executed, and the transaction aborted.
pub run_postgresql-aborted :
    (env : Env) (calls : List Call) (s : Session)
    → s.aborted ≡ true
    → All (λ call. ends call ≡ false) calls
    → run_postgresql env calls s ≡ s
unfolding run_postgresql
run_postgresql-aborted env [] s aborted stay = refl
run_postgresql-aborted env (call ∷ calls) s aborted stay =
    rw ((perform-Leaves env s aborted call stay.0).same)
      (run_postgresql-aborted env calls s aborted stay.1)
