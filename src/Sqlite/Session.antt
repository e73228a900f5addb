-- ===== src/Sqlite/Session.antt =====
-- class Session
use memori.Prelude.{ℕ, String, Bool, Option, none, str_eq}
use memori.Exec.{Exec}
use memori.Sql.{insert_or_ignore, select_one, id_of}
use memori.Schema.{Db, SessionRow}
use memori.Conn.{get_or_create, Env, Conn, Stamp, query}

-- UNIQUE (uuid), and WHERE uuid = ?
abbrev pub named : String → SessionRow → Bool
named uuid r = str_eq uuid r.uuid

unfoldable pub insert_session : String → Option ℕ → Option ℕ → Stamp → Db → Db
insert_session uuid entity_id process_id s db = record db {
  session =
      insert_or_ignore (named uuid) s.gap
        (record {
          uuid = uuid;
          entity_id = entity_id;
          process_id = process_id;
          date_created = s.now;
          date_updated = none;
        })
        db.session;
}

-- SELECT id … WHERE uuid = ?
abbrev pub find : String → Db → Option ℕ
find uuid db = id_of (select_one (named uuid) db.session)

unfoldable pub create : Env → String → Option ℕ → Option ℕ → Exec Conn ℕ
create env uuid entity_id process_id =
    get_or_create env (insert_session uuid entity_id process_id) (find uuid)

unfoldable pub read : Env → String → Exec Conn (Option ℕ)
read env uuid = query env (find uuid)
