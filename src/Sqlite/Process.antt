-- ===== src/Sqlite/Process.antt =====
-- classes Process and ProcessAttribute
use memori.Prelude.{ℕ, ◌+◌, String, Bool, Option, none, some, List, [], ◌∷◌, ◌&&◌, ◌==◌, str_eq}
use memori.Exec.{Exec, integrity_error, pure, or_raise, for_each, ◌>>=◌, ◌>>◌}
use memori.Sql.{insert_or_ignore, upsert, select_one, id_of}
use memori.Schema.{Db, ProcessRow, AttributeRow}
use memori.Conn.{get_or_create, Env, Conn, Stamp, write, commit}
use memori.Utils.{generate_uniq}

-- UNIQUE (external_id), and WHERE external_id = ?
abbrev pub named : String → ProcessRow → Bool
named external_id r = str_eq external_id r.external_id

unfoldable pub insert_process : String → Stamp → Db → Db
insert_process external_id s db = record db {
  process =
      insert_or_ignore (named external_id) s.gap
        (record {
          uuid = s.uuid;
          external_id = external_id;
          date_created = s.now;
          date_updated = none;
        })
        db.process;
}

-- SELECT id … WHERE external_id = ?
abbrev pub find : String → Db → Option ℕ
find external_id db = id_of (select_one (named external_id) db.process)

unfoldable pub create : Env → String → Exec Conn ℕ
create env external_id = get_or_create env (insert_process external_id) (find external_id)

-- UNIQUE (process_id, uniq)
abbrev pub keyed : ℕ → String → AttributeRow → Bool
keyed process_id uniq r = process_id == r.process_id && str_eq uniq r.uniq

-- num_times = num_times + 1, date_last_time = datetime('now')
abbrev pub seen_again : ℕ → AttributeRow → AttributeRow
seen_again now r = record r { num_times = r.num_times + 1; date_last_time = now }

unfoldable pub upsert_attribute : ℕ → String → String → Stamp → Db → Db
upsert_attribute process_id attribute uniq s db = record db {
  process_attribute =
      upsert (keyed process_id uniq) (seen_again s.now) s.gap
        (record {
          uuid = s.uuid;
          process_id = process_id;
          content = attribute;
          num_times = 1;
          date_last_time = s.now;
          uniq = uniq;
          date_created = s.now;
          date_updated = none;
        })
        db.process_attribute;
}

-- The body of the loop. A missing `uniq` would break NOT NULL.
unfoldable pub create_attribute : Env → ℕ → String → Exec Conn (Unit {0})
create_attribute env process_id attribute = do
  uniq ← or_raise integrity_error (generate_uniq env (attribute ∷ []))
  write env (upsert_attribute process_id attribute uniq)

-- `ProcessAttribute.create`
unfoldable pub create_attributes : Env → ℕ → Option (List String) → Exec Conn (Unit {0})
create_attributes env process_id none = pure tt
create_attributes env process_id (some []) = pure tt
create_attributes env process_id (some (a ∷ attributes)) = do
  for_each (a ∷ attributes) (create_attribute env process_id)
  commit env
