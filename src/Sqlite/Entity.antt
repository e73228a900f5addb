-- ===== src/Sqlite/Entity.antt =====
-- class Entity
use memori.Prelude.{ℕ, String, Bool, Option, none, str_eq}
use memori.Exec.{Exec}
use memori.Sql.{insert_or_ignore, select_one, id_of}
use memori.Schema.{Db, EntityRow}
use memori.Conn.{get_or_create, Env, Conn, Stamp}

-- UNIQUE (external_id), and WHERE external_id = ?
abbrev pub named : String → EntityRow → Bool
named external_id r = str_eq external_id r.external_id

unfoldable pub insert_entity : String → Stamp → Db → Db
insert_entity external_id s db = record db {
  entity =
      insert_or_ignore (named external_id) s.gap
        (record {
          uuid = s.uuid;
          external_id = external_id;
          date_created = s.now;
          date_updated = none;
        })
        db.entity;
}

-- SELECT id … WHERE external_id = ?
abbrev pub find : String → Db → Option ℕ
find external_id db = id_of (select_one (named external_id) db.entity)

unfoldable pub create : Env → String → Exec Conn ℕ
create env external_id = get_or_create env (insert_entity external_id) (find external_id)
