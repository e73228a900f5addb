-- ===== src/Server/Kept.antt =====
-- What the statements of a server keep of both databases of a connection.
use memori.Prelude.{Bool, true, ◌≡◌, Bool-cases, inl, inr}
use memori.Exec.{integrity_error, or_raise}
use memori.Exec.Preserves.{Preserves, Preserves-bind, Preserves-or_raise}
use memori.Schema.{Db}
use memori.Conn.{Env, Stamp}
use memori.Conn.Quiet.{Both, Preserves-execute, attempt-Both}
use memori.Server.{checked, write_checked, rollback, keep_ids, rolled_back}

-- A checked INSERT runs where its foreign keys are met.
pub checked-kept :
    (P : Db → Type 0) (fits : Db → Bool) (f : Stamp → Db → Db) (s : Stamp) (db : Db)
    → (fits db ≡ true → P (f s db))
    → P db
    → P (checked fits f s db).1
checked-kept P fits f s db h p = elim (Bool-cases (fits db)) [
  | inl met ↦ rw met (h met)
  | inr unmet ↦ rw unmet p
]

module _ {P : Db → Type 0} (env : Env) where
  pub Preserves-write_checked :
      (fits : Db → Bool) (f : Stamp → Db → Db)
      → ((s : Stamp) (db : Db) → P db → fits db ≡ true → P (f s db))
      → Preserves (Both P) (write_checked env fits f)
  unfolding write_checked
  Preserves-write_checked fits f h =
      Preserves-bind _ (or_raise integrity_error)
        (Preserves-execute env (checked fits f) (λ s db p. checked-kept P fits f s db (h s db p) p))
        (Preserves-or_raise integrity_error)

  pub Preserves-rollback :
      ((db other : Db) → P db → P (keep_ids db other)) → Preserves (Both P) (rollback env)
  unfolding rollback
  Preserves-rollback ids = record {
    at = λ c b.
        let left = ids c.committed c.db b.committed in
        attempt-Both env (env.fault c.step) tt (rolled_back c) c
          (record { committed = left; db = left }) b;
  }
