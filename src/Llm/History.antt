-- ===== src/Llm/History.antt =====
-- memori/llm: `inject_conversation_messages` of pipelines/conversation_injection.py, and
-- `_ensure_cached_conversation_id` of _base.py: where the history of a request comes from, over the
-- SQLite driver. The wrapper around a client's method lives as long as the client, and with it the
-- count of what was injected.
pub mod Stale
use memori.Prelude.{ℕ, String, Bool, true, false, Option, none, some, List, [], ◌∷◌, if◌then◌else◌}
use memori.Exec.{Exec, Result, ok, err, pure, raise, gets, ◌>>=◌, ◌>>◌}
use memori.Conn.{Env, Conn}
use memori.Memory.Config.{Config, App, Cache, on_conn, on_cache}
use memori.Sqlite.Conversation
use memori.Sqlite.Conversation.{Message}
use memori.Sqlite.Entity
use memori.Sqlite.Process
use memori.Sqlite.Session
use memori.Llm.{Client, Texts}
use memori.Llm.Injection.{Kwargs, Builders, inject_messages_by_provider}

-- class BaseInvoke, with the configuration's cache and the connection
pub record Invoke : Type 0 where
  pub app : App
  pub injected_message_count : ℕ
  pub cloud_conversation_messages : List Message

abbrev pub on_app : {A : Type 0} → Exec App A → Exec Invoke A
on_app m s = let (r, app') = m s.app in (r, record s { app = app' })

abbrev pub set_count : ℕ → Exec Invoke (Unit {0})
set_count n s = (ok tt, record s { injected_message_count = n })

module _ (env : Env) (config : Config) where
  -- A lookup that fills the cache if it finds an id.
  abbrev read_session : Option ℕ → Exec App (Option ℕ)
  read_session (some i) = pure (some i)
  read_session none = do
    i ← on_conn (Session.read env config.session_id)
    on_cache (λ c. record c { session_id = i })
    pure i

  abbrev read_conversation : Option ℕ → Option ℕ → Exec App Bool
  read_conversation none cached = pure false
  read_conversation (some session_id) (some i) = pure true
  read_conversation (some session_id) none = do
    i ← on_conn (Conversation.read_id_by_session_id env session_id)
    on_cache (λ c. record c { conversation_id = i })
    pure (elim i [ none ↦ false | some _ ↦ true ])

  abbrev ensure_cached : Exec App Bool
  ensure_cached = do
    cached ← gets (λ (app : App). app.cache.session_id)
    session_id ← read_session cached
    conversation_id ← gets (λ (app : App). app.cache.conversation_id)
    read_conversation session_id conversation_id

  unfoldable pub ensure_cached_conversation_id : Exec App Bool
  ensure_cached_conversation_id = if config.has_storage then ensure_cached else pure false

  abbrev create_entity : Option String → Exec App (Unit {0})
  create_entity none = pure tt
  create_entity (some x) = do
    i ← on_conn (Entity.create env x)
    on_cache (λ c. record c { entity_id = some i })

  abbrev create_process : Option String → Exec App (Unit {0})
  create_process none = pure tt
  create_process (some x) = do
    i ← on_conn (Process.create env x)
    on_cache (λ c. record c { process_id = some i })

  -- `if invoke.config.cache.session_id is None:`
  abbrev create_session : Option ℕ → Exec App (Unit {0})
  create_session (some i) = pure tt
  create_session none = do
    create_entity config.entity_id
    create_process config.process_id
    cache ← gets (λ (app : App). app.cache)
    i ← on_conn (Session.create env config.session_id cache.entity_id cache.process_id)
    on_cache (λ c. record c { session_id = some i })

  abbrev create_conversation : Option ℕ → Exec App (Unit {0})
  create_conversation none = pure tt
  create_conversation (some session_id) = do
    i ← on_conn (Conversation.create env session_id config.session_timeout_minutes)
    on_cache (λ c. record c { conversation_id = some i })

  abbrev create_if_missing : Bool → Exec App (Unit {0})
  create_if_missing true = pure tt
  create_if_missing false = do
    session_id ← gets (λ (app : App). app.cache.session_id)
    create_session session_id
    session_id' ← gets (λ (app : App). app.cache.session_id)
    create_conversation session_id'

  -- What stands before `messages = …`: the conversation's id. The creations
  -- return ids or raise, so the second call of `_ensure_cached_conversation_id` is not reached.
  unfoldable pub conversation_for : Option ℕ → Exec App (Option ℕ)
  unfolding ensure_cached_conversation_id
  conversation_for (some i) = pure (some i)
  conversation_for none = do
    found ← ensure_cached_conversation_id
    create_if_missing found
    gets (λ (app : App). app.cache.conversation_id)

module _ {M G : Type 0} (env : Env) (config : Config) (texts : Texts) (build : Builders M G)
    (client : Client) where
  abbrev note_count : Result (Kwargs M G × ℕ) → Exec Invoke (Kwargs M G)
  note_count (ok (kwargs, count)) = set_count count >>= λ _. pure kwargs
  note_count (err e) = raise e

  -- `if not messages: return kwargs`
  abbrev pub inject : Kwargs M G → List Message → Exec Invoke (Kwargs M G)
  inject kwargs [] = pure kwargs
  inject kwargs (m ∷ messages) =
      note_count (inject_messages_by_provider texts build client kwargs (m ∷ messages))

  abbrev pub inject_cloud : Kwargs M G → List Message → Exec Invoke (Kwargs M G)
  inject_cloud kwargs [] = set_count 0 >>= λ _. pure kwargs
  inject_cloud kwargs (m ∷ messages) =
      note_count (inject_messages_by_provider texts build client kwargs (m ∷ messages))

  abbrev pub inject_stored : Kwargs M G → Option ℕ → Exec Invoke (Kwargs M G)
  inject_stored kwargs none = pure kwargs
  inject_stored kwargs (some i) = do
    messages ← on_app (on_conn (Conversation.read_messages env i))
    inject kwargs messages

  unfoldable pub inject_conversation_messages : Kwargs M G → Exec Invoke (Kwargs M G)
  unfolding conversation_for
  inject_conversation_messages kwargs s =
      if config.cloud
      then inject_cloud kwargs s.cloud_conversation_messages s
      else if config.has_storage
      then (on_app (conversation_for env config s.app.cache.conversation_id)
            >>= inject_stored kwargs)
          s
      else (ok kwargs, s)
