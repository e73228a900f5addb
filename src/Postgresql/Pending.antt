-- ===== src/Postgresql/Pending.antt =====
-- What the driver leaves for its caller to commit.
use memori.Prelude.{
  ℕ, suc, String, Bool, true, false, Option, none, some, List, [], ◌∷◌, ◌≡◌, refl, ◌∙◌, All,
  if◌then◌else◌,
}
use memori.Exec.{Exc, Result, err, other, Exec}
use memori.Exec.Preserves.{Preserves, preserves_rules, Preserves-bind, Preserves-for_each}
use memori.Schema.{Db}
use memori.Conn.{Env, Stamp, stamp}
use memori.Server.{checked}
use memori.Sqlite.Calls.{
  Call, entity_create, process_create, process_attribute_create, session_create,
  conversation_create, conversation_update, message_create, entity_fact_create, entity_fact_delete,
  knowledge_graph_create, knowledge_graph_delete, connection_commit, connection_rollback,
}
use memori.Postgresql.Session.{Session, settle, statement, query, write_checked}
use memori.Postgresql.Accounts
use memori.Postgresql.Conversation
use memori.Postgresql.EntityFact
use memori.Postgresql.Calls.{perform, run_postgresql}

-- It stores attributes, a message or facts.
abbrev pub stores : Call → Bool
stores (process_attribute_create _ _) = true
stores (message_create _ _ _ _) = true
stores (entity_fact_create _ _ _ _) = true
stores _ = false

module _ (db : Db) where
  abbrev IsCommitted : Session → Type 0
  IsCommitted s = s.conn.committed ≡ db

  settle-IsCommitted :
      {A : Type 0} (e : Option Exc) (out : Option A × Db) (s : Session)
      → IsCommitted s
      → IsCommitted (settle e out s).1
  settle-IsCommitted (some e) (r, d) s h = h
  settle-IsCommitted none (none, d) s h = h
  settle-IsCommitted none (some a, d) s h = h

  refuse-IsCommitted :
      {A : Type 0} (refused : Bool) (out : Result A × Session) (s : Session)
      → IsCommitted s
      → IsCommitted out.1
      → IsCommitted (if refused then (err other, s) else out).1
  refuse-IsCommitted true out s h k = h
  refuse-IsCommitted false out s h k = k

  module _ (env : Env) where
    abbrev Keeps : {A : Type 0} → Exec Session A → Type 0
    Keeps m = Preserves IsCommitted m

    statement-keeps : {A : Type 0} (f : Stamp → Db → Option A × Db) → Keeps (statement env f)
    unfolding statement
    statement-keeps f = record {
      at = λ s h.
          let out = f (stamp env s.conn.step) s.conn.db in
          refuse-IsCommitted s.aborted (settle (env.fault s.conn.step) out s) s h
            (settle-IsCommitted (env.fault s.conn.step) out s h);
    }

    query-keeps : {A : Type 0} (f : Db → A) → Keeps (query env f)
    unfolding query
    query-keeps f = statement-keeps (λ _ db. (some (f db), db))

    write_checked-keeps :
        (fits : Db → Bool) (f : Stamp → Db → Db) → Keeps (write_checked env fits f)
    unfolding write_checked
    write_checked-keeps fits f = statement-keeps (checked fits f)

    attribute : (i : ℕ) (text : String) → Keeps (Accounts.create_attribute env i text)
    unfolding Accounts.create_attribute
    attribute i text = search (preserves_rules, write_checked-keeps)

    mention_found : (e c : ℕ) (found : Option ℕ) → Keeps (EntityFact.mention_found env e c found)
    unfolding EntityFact.mention_found
    mention_found e c none = search preserves_rules
    mention_found e c (some k) = search write_checked-keeps

    mention :
        (e : ℕ) (c : Option ℕ) (uniq : String) → Keeps (EntityFact.create_mention env e c uniq)
    unfolding EntityFact.create_mention
    mention e none uniq = search preserves_rules
    mention e (some c) uniq = search (preserves_rules, query-keeps, mention_found)

    fact :
        (e : ℕ) (es : Option (List (List ℕ))) (c : Option ℕ) (i : ℕ) (text : String)
        → Keeps (EntityFact.create_fact env e es c i text)
    unfolding EntityFact.create_fact
    fact e es c i text = search (preserves_rules, write_checked-keeps, mention)

    facts :
        (e : ℕ) (es : Option (List (List ℕ))) (c : Option ℕ) (i : ℕ) (texts : List String)
        → Keeps (EntityFact.create_facts env e es c i texts)
    unfolding EntityFact.create_facts
    facts e es c i [] = search preserves_rules
    facts e es c i (text ∷ texts) =
        Preserves-bind _ _ (fact e es c i text) (λ _. facts e es c (suc i) texts)

    perform-keeps : (call : Call) → stores call ≡ true → Keeps (perform env call)
    unfolding perform Accounts.create_attributes Conversation.create_message EntityFact.create
    perform-keeps (process_attribute_create i none) h = search preserves_rules
    perform-keeps (process_attribute_create i (some texts)) h =
        Preserves-for_each texts _ (attribute i)
    perform-keeps (message_create i role type content) h = search write_checked-keeps
    perform-keeps (entity_fact_create e none es c) h = search preserves_rules
    perform-keeps (entity_fact_create e (some texts) es c) h = facts e es c 0 texts
    perform-keeps (entity_create x) h = cc
    perform-keeps (process_create x) h = cc
    perform-keeps (session_create x e p) h = cc
    perform-keeps (conversation_create i t) h = cc
    perform-keeps (conversation_update i text) h = cc
    perform-keeps (entity_fact_delete e) h = cc
    perform-keeps (knowledge_graph_create e triples) h = cc
    perform-keeps (knowledge_graph_delete e) h = cc
    perform-keeps connection_commit h = cc
    perform-keeps connection_rollback h = cc

-- A run of calls that store attributes, messages and facts, whichever statements raise, commits
-- nothing in the PostgreSQL driver: what was committed is unchanged.
pub run_postgresql-pending :
    (env : Env) (calls : List Call) (s : Session)
    → All (λ call. stores call ≡ true) calls
    → (run_postgresql env calls s).conn.committed ≡ s.conn.committed
unfolding run_postgresql
run_postgresql-pending env [] s h = refl
run_postgresql-pending env (call ∷ calls) s h =
    run_postgresql-pending env calls _ h.1 ∙ (perform-keeps s.conn.committed env call h.0).at s refl
