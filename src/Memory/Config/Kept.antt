-- ===== src/Memory/Config/Kept.antt =====
-- What the calls that look ids up leave as it is, in both databases of the connection.
use memori.Prelude.{ℕ, String, ◌≡◌, Option, none, some, if◌then◌else◌, arith}
use memori.Sql.{Table}
use memori.Exec.{Exec, pure, ◌>>◌}
use memori.Exec.Returns.{Returns, Returns-bind}
use memori.Exec.Preserves.{Preserves, Preserves-bind, Preserves-pure, Preserves-if, preserves_rules}
use memori.Schema.{Db, MessageRow}
use memori.Conn.{Env, Conn}
use memori.Conn.Quiet.{Both, Preserves-get_or_create, Preserves-query, Preserves-execute}
use memori.Memory.Config.{
  Config, App, Cache, on_conn, on_cache, ensure_cached_id, ensure_entity, ensure_process,
  ensure_session, ensure_conversation, ensure_ids,
}
use memori.Sqlite.Entity
use memori.Sqlite.Entity.{insert_entity}
use memori.Sqlite.Process
use memori.Sqlite.Process.{insert_process}
use memori.Sqlite.Session
use memori.Sqlite.Session.{insert_session}
use memori.Sqlite.Conversation
use memori.Sqlite.Conversation.{insert_conversation}

-- `P` of both databases of the connection, whatever the cache holds.
abbrev pub OnConn : (Db → Type 0) → App → Type 0
OnConn P app = Both P app.conn

module _ {P : Db → Type 0} where
  pub Preserves-on_conn :
      {A : Type 0} (m : Exec Conn A) → Preserves (Both P) m → Preserves (OnConn P) (on_conn m)
  Preserves-on_conn m h = record { at = λ app p. h.at app.conn p }

  Preserves-on_cache : (f : Cache → Cache) → Preserves (OnConn P) (on_cache f)
  Preserves-on_cache f = record { at = λ app p. p }

  Preserves-ensure_cached_id :
      (cached : Option ℕ) (put : ℕ → Cache → Cache) (create : Exec Conn ℕ)
      → Preserves (Both P) create
      → Preserves (OnConn P) (ensure_cached_id cached put create)
  unfolding ensure_cached_id
  Preserves-ensure_cached_id none put create h =
      Preserves-bind (on_conn create) (λ i. on_cache (put i) >> pure i) (Preserves-on_conn create h)
        (λ i.
          Preserves-bind (on_cache (put i)) (λ _. pure i) (Preserves-on_cache (put i))
            (λ _. Preserves-pure i))
  Preserves-ensure_cached_id (some i) put create h = Preserves-pure i

-- The messages stay as they are.
abbrev pub Messages : Table MessageRow → Db → Type 0
Messages t db = db.conversation_message ≡ t

module _ (t : Table MessageRow) (env : Env) where
  entity_create : (x : String) → Preserves (Both (Messages t)) (Entity.create env x)
  unfolding Entity.create insert_entity
  entity_create x = Preserves-get_or_create env _ _ (λ s db h. h)

  process_create : (x : String) → Preserves (Both (Messages t)) (Process.create env x)
  unfolding Process.create insert_process
  process_create x = Preserves-get_or_create env _ _ (λ s db h. h)

  session_create :
      (x : String) (e p : Option ℕ) → Preserves (Both (Messages t)) (Session.create env x e p)
  unfolding Session.create insert_session
  session_create x e p = Preserves-get_or_create env _ _ (λ s db h. h)

  create_new : (n : ℕ) → Preserves (Both (Messages t)) (Conversation.create_new env n)
  unfolding Conversation.create_new insert_conversation
  create_new n = Preserves-get_or_create env _ _ (λ s db h. h)

  resume :
      (n timeout : ℕ) (found : Option (ℕ × ℕ))
      → Preserves (Both (Messages t)) (Conversation.resume env n timeout found)
  unfolding Conversation.resume
  resume n timeout none = create_new n
  resume n timeout (some (i, last)) =
      Preserves-bind _ (λ recent. if recent then pure i else Conversation.create_new env n)
        (Preserves-execute env _ (λ s db h. h))
        (λ recent.
          Preserves-if recent (pure i) (Conversation.create_new env n) (Preserves-pure i)
            (create_new n))

  conversation_create :
      (n timeout : ℕ) → Preserves (Both (Messages t)) (Conversation.create env n timeout)
  unfolding Conversation.create
  conversation_create n timeout = search (preserves_rules, Preserves-query, resume)

  abbrev Kept : {A : Type 0} → Exec App A → Type 0
  Kept m = Preserves (OnConn (Messages t)) m

  ensure_entity-keeps : (x : Option String) → Kept (ensure_entity env x)
  unfolding ensure_entity
  ensure_entity-keeps none = record { at = λ app h. h }
  ensure_entity-keeps (some x) = record {
    at = λ app h.
        (Preserves-bind _ (λ _. pure tt)
            (Preserves-ensure_cached_id app.cache.entity_id _ (Entity.create env x)
              (entity_create x))
            (λ _. Preserves-pure tt)).at
          app h;
  }

  ensure_process-keeps : (x : Option String) → Kept (ensure_process env x)
  unfolding ensure_process
  ensure_process-keeps none = record { at = λ app h. h }
  ensure_process-keeps (some x) = record {
    at = λ app h.
        (Preserves-bind _ (λ _. pure tt)
            (Preserves-ensure_cached_id app.cache.process_id _ (Process.create env x)
              (process_create x))
            (λ _. Preserves-pure tt)).at
          app h;
  }

  ensure_session-keeps : (x : String) → Kept (ensure_session env x)
  unfolding ensure_session
  ensure_session-keeps x = record {
    at = λ app h.
        (Preserves-ensure_cached_id app.cache.session_id _
            (Session.create env x app.cache.entity_id app.cache.process_id)
            (session_create x app.cache.entity_id app.cache.process_id)).at
          app h;
  }

  ensure_conversation-keeps : (n timeout : ℕ) → Kept (ensure_conversation env n timeout)
  unfolding ensure_conversation
  ensure_conversation-keeps n timeout = record {
    at = λ app h.
        (Preserves-ensure_cached_id app.cache.conversation_id _ (Conversation.create env n timeout)
            (conversation_create n timeout)).at
          app h;
  }

  -- Looking the ids up changes no message, in what is committed and in the open transaction.
  pub ensure_ids-keeps : (config : Config) → Kept (ensure_ids env config)
  unfolding ensure_ids
  ensure_ids-keeps config = search (
    preserves_rules, ensure_entity-keeps, ensure_process-keeps, ensure_session-keeps,
    ensure_conversation-keeps,
  )

-- What the last call returns is what the cache holds.
abbrev IsCached : ℕ → App → Type 0
IsCached i app = app.cache.conversation_id ≡ some i

module _ (env : Env) where
  ensure_conversation-IsCached :
      (n timeout : ℕ) → Returns IsCached (ensure_conversation env n timeout)
  unfolding ensure_conversation ensure_cached_id
  ensure_conversation-IsCached n timeout = record { at = λ app i h. ground arith }

  pub ensure_ids-IsCached : (config : Config) → Returns IsCached (ensure_ids env config)
  unfolding ensure_ids
  ensure_ids-IsCached config = search (Returns-bind, ensure_conversation-IsCached)
