-- ===== src/Postgresql/Refines/Calls.antt =====
-- The driver's methods against SQLite's.
use memori.Prelude.{
  ℕ, String, Bool, true, false, Option, none, some, ◌≡◌, refl, ◌∙◌, sym, ap, if◌then◌else◌,
}
use memori.Exec.{Exec, Result, pure, ◌>>=◌}
use memori.Schema.{Db}
use memori.Conn.{Env, Conn, Stamp, stamp}
use memori.Conn
use memori.Conn.Quiet.{IsQuiet}
use memori.Foreign.{message_fits}
use memori.Sqlite.Conversation as SqliteConversation
use memori.Sqlite.Calls.{
  Call, entity_create, process_create, process_attribute_create, session_create,
  conversation_create, conversation_update, message_create, entity_fact_create, entity_fact_delete,
  knowledge_graph_create, knowledge_graph_delete, connection_commit, connection_rollback,
}
use memori.Sqlite.Calls as SqliteCalls
use memori.Sqlite.Entity as SqliteEntity
use memori.Sqlite.Process as SqliteProcess
use memori.Sqlite.Session as SqliteSession
use memori.Postgresql.Session.{Session, statement, query}
use memori.Postgresql.Accounts.{session_ready, create_entity, create_process, create_session}
use memori.Postgresql.Conversation
use memori.Postgresql.Conversation.{conversation_ready}
use memori.Postgresql.Calls.{perform}
use memori.Postgresql.Refines.{
  session_of, lifted, Agrees, bind-Agrees, continue-refines, got-Agrees, query-Agrees,
  commit-Agrees, checked-Agrees, statement-quiet, write-refines,
}

-- A step that leaves the database as it is.
still-Agrees :
    {A B : Type 0} {c : Conn} (m : Exec Session A) (n : Exec Conn A) (f : A → Exec Session B)
    (g : A → Exec Conn B)
    → Agrees m n c
    → (n c).1.db ≡ c.db
    → ((a : A) (c' : Conn) → c'.db ≡ c.db → Agrees (f a) (g a) c')
    → Agrees (m >>= f) (n >>= g) c
still-Agrees {c = c} m n f g h still k = record {
  same = rw h.same (
      continue-refines f g (n c)
        (λ a c' e. (k a c' (sym (ap (λ (o : Result _ × Conn). o.1.db) e) ∙ still)).same));
}

module _ (env : Env) (quiet : IsQuiet env) where
  execute-still :
      {A : Type 0} (f : Stamp → Db → A) (c : Conn)
      → (Conn.execute env (λ s db. (f s db, db)) c).1.db ≡ c.db
  unfolding Conn.execute
  execute-still f c = rw (quiet.no_fault c.step) refl

  read-Agrees :
      {A : Type 0} (f : Stamp → Db → A) (c : Conn)
      → Agrees
          (statement env (λ s db. (some (f s db), db)))
          (Conn.execute env (λ s db. (f s db, db)))
          c
  unfolding Conn.execute
  read-Agrees f c = record {
    same =
        statement-quiet env quiet (λ s db. (some (f s db), db)) (f (stamp env c.step) c.db) c.db c
          refl
        ∙ rw (quiet.no_fault c.step) refl;
  }

  module _ (i : ℕ) (timeout : ℕ) where
    create_new-Agrees :
        (c : Conn)
        → conversation_ready i c.db ≡ true
        → Agrees (Conversation.create_new env i) (SqliteConversation.create_new env i) c
    unfolding Conversation.create_new SqliteConversation.create_new
    create_new-Agrees c h = got-Agrees env quiet _ _ _ c h

    if-Agrees :
        (recent : Bool) (j : ℕ) (c : Conn)
        → conversation_ready i c.db ≡ true
        → Agrees
            (if recent then pure j else Conversation.create_new env i)
            (if recent then pure j else SqliteConversation.create_new env i)
            c
    if-Agrees true j c h = record { same = refl }
    if-Agrees false j c h = create_new-Agrees c h

    resume-Agrees :
        (found : Option (ℕ × ℕ)) (c : Conn)
        → conversation_ready i c.db ≡ true
        → Agrees
            (Conversation.resume env i timeout found)
            (SqliteConversation.resume env i timeout found)
            c
    unfolding Conversation.resume SqliteConversation.resume
    resume-Agrees none c h = create_new-Agrees c h
    resume-Agrees (some (j, last)) c h =
        still-Agrees _ _ (λ recent. if recent then pure j else Conversation.create_new env i)
          (λ recent. if recent then pure j else SqliteConversation.create_new env i)
          (read-Agrees (λ s _. SqliteConversation.is_recent s.now last timeout) c)
          (execute-still (λ s _. SqliteConversation.is_recent s.now last timeout) c)
          (λ recent c' same. if-Agrees recent j c' (rw same h))

    create-Agrees :
        (c : Conn)
        → conversation_ready i c.db ≡ true
        → Agrees (Conversation.create env i timeout) (SqliteConversation.create env i timeout) c
    unfolding Conversation.create SqliteConversation.create
    create-Agrees c h =
        still-Agrees (query env (SqliteConversation.existing i))
          (Conn.query env (SqliteConversation.existing i)) (Conversation.resume env i timeout)
          (SqliteConversation.resume env i timeout) (query-Agrees env quiet _ c)
          (execute-still (λ _ db. SqliteConversation.existing i db) c)
          (λ found c' same. resume-Agrees found c' (rw same h))

-- A call that finds or creates a row, stores a message or sets a summary, whose foreign keys are met.
abbrev pub is_met : Call → Db → Bool
is_met (entity_create x) db = true
is_met (process_create x) db = true
is_met (session_create x e p) db = session_ready x e p db
is_met (conversation_create i t) db = conversation_ready i db
is_met (conversation_update i text) db = true
is_met (message_create i role type content) db = message_fits i db
is_met _ db = false

module _ (env : Env) (quiet : IsQuiet env) where
  discard-Agrees :
      {A : Type 0} (m : Exec Session A) (n : Exec Conn A) (c : Conn)
      → Agrees m n c
      → Agrees (m >>= λ _. pure tt) (n >>= λ _. pure tt) c
  discard-Agrees m n c h =
      bind-Agrees m n (λ _. pure tt) (λ _. pure tt) h (λ _ c'. record { same = refl })

  update-Agrees :
      (i : ℕ) (text : Option String) (c : Conn)
      → Agrees (Conversation.update env i text) (SqliteConversation.update env i text) c
  unfolding Conversation.update SqliteConversation.update Conversation.set_summary
  update-Agrees i none c = record { same = refl }
  update-Agrees i (some text) c =
      bind-Agrees _ (Conn.write env (λ _. Conversation.set_summary i text)) _ _
        (record { same = write-refines env quiet (λ _. Conversation.set_summary i text) c })
        (λ _ c'. commit-Agrees env quiet c')

  perform-Agrees :
      (call : Call) (c : Conn)
      → is_met call c.db ≡ true
      → Agrees (perform env call) (SqliteCalls.perform env call) c
  unfolding perform SqliteCalls.perform create_entity create_process create_session
      SqliteEntity.create SqliteProcess.create SqliteSession.create Conversation.create_message
      SqliteConversation.create_message
  perform-Agrees (entity_create x) c h = discard-Agrees _ _ c (got-Agrees env quiet _ _ _ c refl)
  perform-Agrees (process_create x) c h = discard-Agrees _ _ c (got-Agrees env quiet _ _ _ c refl)
  perform-Agrees (session_create x e p) c h = discard-Agrees _ _ c (got-Agrees env quiet _ _ _ c h)
  perform-Agrees (conversation_create i t) c h =
      discard-Agrees _ _ c (create-Agrees env quiet i t c h)
  perform-Agrees (conversation_update i text) c h = update-Agrees i text c
  perform-Agrees (message_create i role type content) c h = checked-Agrees env quiet _ _ c h
  perform-Agrees (process_attribute_create i xs) c h = cc
  perform-Agrees (entity_fact_create e facts es cid) c h = cc
  perform-Agrees (entity_fact_delete e) c h = cc
  perform-Agrees (knowledge_graph_create e triples) c h = cc
  perform-Agrees (knowledge_graph_delete e) c h = cc
  perform-Agrees connection_commit c h = cc
  perform-Agrees connection_rollback c h = cc

-- Where no statement fails, on a transaction that is not aborted, a call of the PostgreSQL driver
-- that finds or creates an entity, a process, a session or a conversation, stores a message or sets a
-- summary, and whose foreign keys are met, returns and leaves what SQLite's driver does.
pub perform-refines :
    (env : Env) (call : Call) (c : Conn)
    → IsQuiet env
    → is_met call c.db ≡ true
    → perform env call (session_of c) ≡ lifted (SqliteCalls.perform env call c)
perform-refines env call c quiet h = (perform-Agrees env quiet call c h).same
