-- ===== src/Mysql/Accounts.antt =====
-- classes Entity, Process, ProcessAttribute and Session
use memori.Prelude.{
  ℕ, ◌+◌, String, Bool, Option, none, some, List, [], ◌∷◌, ◌||◌, any, if◌then◌else◌,
}
use memori.Exec.{Exec, integrity_error, pure, or_raise, for_each, ◌>>=◌, ◌>>◌}
use memori.Sql.{upsert, columns}
use memori.Schema.{Db, AttributeRow}
use memori.Conn.{Env, Conn, Stamp, get_or_create, query, commit}
use memori.Server.{write_checked}
use memori.Foreign.{session_fits, attribute_fits}
use memori.Utils.{generate_uniq_text}
use memori.Sqlite.Entity.{insert_entity}
use memori.Sqlite.Entity
use memori.Sqlite.Process.{insert_process, keyed}
use memori.Sqlite.Process
use memori.Sqlite.Session.{insert_session}
use memori.Sqlite.Session

-- `Entity.create`
unfoldable pub create_entity : Env → String → Exec Conn ℕ
create_entity env external_id =
    get_or_create env (insert_entity external_id) (Entity.find external_id)

-- `Process.create`
unfoldable pub create_process : Env → String → Exec Conn ℕ
create_process env external_id =
    get_or_create env (insert_process external_id) (Process.find external_id)

-- INSERT IGNORE, which also leaves out a row whose foreign keys are not met, and uses an id up
unfoldable pub insert_session_ignore : String → Option ℕ → Option ℕ → Stamp → Db → Db
insert_session_ignore uuid entity_id process_id s db =
    if session_fits entity_id process_id db
    then insert_session uuid entity_id process_id s db
    else record db { session = record db.session { next_id = db.session.next_id + s.gap } }

-- `Session.create`
unfoldable pub create_session : Env → String → Option ℕ → Option ℕ → Exec Conn ℕ
create_session env uuid entity_id process_id =
    get_or_create env (insert_session_ignore uuid entity_id process_id) (Session.find uuid)

unfoldable pub read_session : Env → String → Exec Conn (Option ℕ)
read_session env uuid = query env (Session.find uuid)

-- num_times = num_times + 1, date_last_time = current_timestamp(); ON UPDATE sets date_updated
abbrev pub attribute_again : ℕ → AttributeRow → AttributeRow
attribute_again now r = record r {
  num_times = r.num_times + 1;
  date_last_time = now;
  date_updated = some now;
}

unfoldable pub upsert_attribute : ℕ → String → String → Stamp → Db → Db
upsert_attribute process_id attribute uniq s db = record db {
  process_attribute =
      upsert (keyed process_id uniq) (attribute_again s.now) s.gap
        (record {
          uuid = s.uuid;
          process_id = process_id;
          content = attribute;
          num_times = 1;
          date_last_time = s.now;
          uniq = uniq;
          date_created = s.now;
          date_updated = none;
        })
        db.process_attribute;
}

-- The row is there, or its process is.
abbrev pub attribute_ready : ℕ → String → Db → Bool
attribute_ready process_id uniq db =
    any (columns (keyed process_id uniq)) db.process_attribute.rows || attribute_fits process_id db

unfoldable pub create_attribute : Env → ℕ → String → Exec Conn (Unit {0})
create_attribute env process_id attribute = do
  uniq ← or_raise integrity_error (generate_uniq_text env attribute)
  write_checked env (attribute_ready process_id uniq) (upsert_attribute process_id attribute uniq)

-- `ProcessAttribute.create`
unfoldable pub create_attributes : Env → ℕ → Option (List String) → Exec Conn (Unit {0})
create_attributes env process_id none = pure tt
create_attributes env process_id (some []) = pure tt
create_attributes env process_id (some (a ∷ attributes)) = do
  for_each (a ∷ attributes) (create_attribute env process_id)
  commit env
