-- ===== src/Mysql/SchemaVersion.antt =====
-- class SchemaVersion
use memori.Prelude.{ℕ, [], ◌∷◌, ◌++◌, any, not, ◌==◌}
use memori.Exec.{Exec, attribute_error, or_raise, ◌>>=◌}
use memori.Conn.{Env, Conn, write, query}
use memori.Server.{write_checked}
use memori.Sqlite.SchemaVersion.{first}

-- `num` is the primary key.
unfoldable pub create : Env → ℕ → Exec Conn (Unit {0})
create env num =
    write_checked env (λ db. not (any (λ n. n == num) db.schema_version))
      (λ _ db. record db { schema_version = db.schema_version ++ num ∷ [] })

unfoldable pub delete : Env → Exec Conn (Unit {0})
delete env = write env (λ _ db. record db { schema_version = [] })

unfoldable pub read : Env → Exec Conn ℕ
read env = do row ← query env (λ db. first db.schema_version); or_raise attribute_error row
