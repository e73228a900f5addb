-- ===== src/Postgresql/Accounts.antt =====
-- classes Entity, Process, ProcessAttribute and Session
use memori.Prelude.{ℕ, String, Bool, true, Option, none, some, List, [], ◌∷◌, ◌||◌, any}
use memori.Exec.{Exec, integrity_error, pure, or_raise, for_each, ◌>>=◌}
use memori.Sql.{columns}
use memori.Schema.{Db}
use memori.Conn.{Env}
use memori.Foreign.{session_fits, attribute_fits}
use memori.Utils.{generate_uniq}
use memori.Postgresql.Session.{Session, get_or_create, write_checked, query}
use memori.Sqlite.Entity.{insert_entity}
use memori.Sqlite.Entity
use memori.Sqlite.Process.{insert_process, upsert_attribute, keyed}
use memori.Sqlite.Process
use memori.Sqlite.Session.{insert_session, named}
use memori.Sqlite.Session as SessionTable

abbrev pub always : Db → Bool
always db = true

-- `Entity.create`
unfoldable pub create_entity : Env → String → Exec Session ℕ
create_entity env external_id =
    get_or_create env always (insert_entity external_id) (Entity.find external_id)

-- `Process.create`
unfoldable pub create_process : Env → String → Exec Session ℕ
create_process env external_id =
    get_or_create env always (insert_process external_id) (Process.find external_id)

-- The row is there, or what it refers to is.
abbrev pub session_ready : String → Option ℕ → Option ℕ → Db → Bool
session_ready uuid e p db = any (columns (named uuid)) db.session.rows || session_fits e p db

-- `Session.create`
unfoldable pub create_session : Env → String → Option ℕ → Option ℕ → Exec Session ℕ
create_session env uuid entity_id process_id =
    get_or_create env (session_ready uuid entity_id process_id)
      (insert_session uuid entity_id process_id) (SessionTable.find uuid)

unfoldable pub read_session : Env → String → Exec Session (Option ℕ)
read_session env uuid = query env (SessionTable.find uuid)

abbrev pub attribute_ready : ℕ → String → Db → Bool
attribute_ready process_id uniq db =
    any (columns (keyed process_id uniq)) db.process_attribute.rows || attribute_fits process_id db

unfoldable pub create_attribute : Env → ℕ → String → Exec Session (Unit {0})
create_attribute env process_id attribute = do
  uniq ← or_raise integrity_error (generate_uniq env (attribute ∷ []))
  write_checked env (attribute_ready process_id uniq) (upsert_attribute process_id attribute uniq)

-- `ProcessAttribute.create`; it does not commit
unfoldable pub create_attributes : Env → ℕ → Option (List String) → Exec Session (Unit {0})
create_attributes env process_id none = pure tt
create_attributes env process_id (some attributes) =
    for_each attributes (create_attribute env process_id)
