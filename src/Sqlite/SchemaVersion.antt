-- ===== src/Sqlite/SchemaVersion.antt =====
-- class SchemaVersion
use memori.Prelude.{ℕ, Option, none, some, List, [], ◌∷◌, ◌++◌, any, ◌==◌, if◌then◌else◌}
use memori.Exec.{Exec, attribute_error, integrity_error, or_raise, ◌>>=◌}
use memori.Conn.{Env, Conn, write, query, execute}

-- `num` is the primary key: a second row with the same number is an IntegrityError.
unfoldable pub create : Env → ℕ → Exec Conn (Unit {0})
create env num = do
  fits ← execute env (λ _ db.
      if any (λ n. n == num) db.schema_version
      then (none, db)
      else (some tt, record db { schema_version = db.schema_version ++ num ∷ [] }))
  or_raise integrity_error fits

unfoldable pub delete : Env → Exec Conn (Unit {0})
delete env = write env (λ _ db. record db { schema_version = [] })

abbrev pub first : List ℕ → Option ℕ
first [] = none
first (n ∷ _) = some n

unfoldable pub read : Env → Exec Conn ℕ
read env = do row ← query env (λ db. first db.schema_version); or_raise attribute_error row
