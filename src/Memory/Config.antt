-- ===== src/Memory/Config.antt =====
-- The parts of memori/_config.py that the writers read, and what they share: the cache of ids
-- over a connection to a SQLite store.
pub mod Kept
use memori.Prelude.{ℕ, String, Bool, Option, none, some}
use memori.Exec.{Exec, Result, ok, err, pure, ◌>>=◌, ◌>>◌}
use memori.Conn.{Env, Conn}
use memori.Sqlite.Entity
use memori.Sqlite.Process
use memori.Sqlite.Session
use memori.Sqlite.Conversation

-- class Cache
pub record Cache : Type 0 where
  pub conversation_id : Option ℕ
  pub entity_id : Option ℕ
  pub process_id : Option ℕ
  pub session_id : Option ℕ

-- `Config.reset_cache`
abbrev pub empty_cache : Cache
empty_cache = record {
  conversation_id = none;
  entity_id = none;
  process_id = none;
  session_id = none;
}

-- class Config. `has_storage` says that `storage` and its driver are there, `has_adapter` that its
-- adapter is, `has_sqlalchemy` that `OperationalError` could be imported.
pub record Config : Type 0 where
  pub cloud : Bool
  pub entity_id : Option String
  pub process_id : Option String
  pub session_id : String
  pub session_timeout_minutes : ℕ
  pub request_num_backoff : ℕ
  pub recall_facts_limit : ℕ
  pub recall_embeddings_limit : ℕ
  pub has_storage : Bool
  pub has_adapter : Bool
  pub has_sqlalchemy : Bool

pub record App : Type 0 where
  pub conn : Conn
  pub cache : Cache

-- A call of the driver or the adapter.
abbrev pub on_conn : {A : Type 0} → Exec Conn A → Exec App A
on_conn m app = let (r, conn') = m app.conn in (r, record app { conn = conn' })

abbrev pub on_cache : (Cache → Cache) → Exec App (Unit {0})
on_cache f app = (ok tt, record app { cache = f app.cache })

-- `_ensure_cached_id`, for the attribute that `put` writes and whose value is `cached`. The driver
-- returns an id or raises, so the code's test that it is not `None` passes.
unfoldable pub ensure_cached_id : Option ℕ → (ℕ → Cache → Cache) → Exec Conn ℕ → Exec App ℕ
ensure_cached_id (some i) put create = pure i
ensure_cached_id none put create = do i ← on_conn create; on_cache (put i); pure i

module _ (env : Env) where
  unfoldable pub ensure_entity : Option String → Exec App (Unit {0})
  unfolding ensure_cached_id
  ensure_entity none app = (ok tt, app)
  ensure_entity (some x) app =
      (ensure_cached_id app.cache.entity_id (λ i c. record c { entity_id = some i })
            (Entity.create env x)
          >>= λ _. pure tt)
        app

  unfoldable pub ensure_process : Option String → Exec App (Unit {0})
  unfolding ensure_cached_id
  ensure_process none app = (ok tt, app)
  ensure_process (some x) app =
      (ensure_cached_id app.cache.process_id (λ i c. record c { process_id = some i })
            (Process.create env x)
          >>= λ _. pure tt)
        app

  unfoldable pub ensure_session : String → Exec App ℕ
  unfolding ensure_cached_id
  ensure_session x app =
      ensure_cached_id app.cache.session_id (λ i c. record c { session_id = some i })
        (Session.create env x app.cache.entity_id app.cache.process_id) app

  unfoldable pub ensure_conversation : ℕ → ℕ → Exec App ℕ
  unfolding ensure_cached_id
  ensure_conversation session_id timeout_minutes app =
      ensure_cached_id app.cache.conversation_id (λ i c. record c { conversation_id = some i })
        (Conversation.create env session_id timeout_minutes) app

  -- The four calls, each of which reads the cache that the ones before it have filled; the id of
  -- the conversation.
  unfoldable pub ensure_ids : Config → Exec App ℕ
  unfolding ensure_entity ensure_process ensure_session ensure_conversation
  ensure_ids config = do
    ensure_entity config.entity_id
    ensure_process config.process_id
    session_id ← ensure_session config.session_id
    ensure_conversation session_id config.session_timeout_minutes
