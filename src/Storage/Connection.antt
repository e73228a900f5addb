-- ===== src/Storage/Connection.antt =====
-- memori/storage/_connection.py: `connection_context`, over the connection that the factory opens.
use memori.Exec.{Exec, Result, ok, err, pure, ◌>>=◌, ◌>>◌}
use memori.Exec.Preserves.{Preserves, Preserves-bind, Preserves-pure}
use memori.Schema.{Db}
use memori.Conn.{Env, Conn, commit, rollback}
use memori.Conn.Quiet.{Both, Preserves-commit, Preserves-rollback}

module _ {A : Type 0} (env : Env) where
  -- `except Exception:` with a rollback whose own error is dropped, and `raise`
  abbrev pub undo_and_raise : Result A × Conn → Result A × Conn
  undo_and_raise (ok a, c) = (ok a, c)
  undo_and_raise (err e, c) = (err e, (rollback env c).1)

  -- `with connection_context(…)` around `body`
  unfoldable pub connection_context : Exec Conn A → Exec Conn A
  connection_context body c = undo_and_raise ((body >>= λ a. commit env >> pure a) c)

  undo_and_raise-keeps :
      {P : Db → Type 0} (r : Result A × Conn) → Both P r.1 → Both P (undo_and_raise r).1
  undo_and_raise-keeps (ok a, c) b = b
  undo_and_raise-keeps (err e, c) b = (Preserves-rollback env).at c b

  pub Preserves-connection_context :
      {P : Db → Type 0} (body : Exec Conn A)
      → Preserves (Both P) body
      → Preserves (Both P) (connection_context body)
  unfolding connection_context
  Preserves-connection_context body h = record {
    at = λ c b. undo_and_raise-keeps _ (
        (Preserves-bind body (λ a. commit env >> pure a) h
            (λ a.
              Preserves-bind (commit env) (λ _. pure a) (Preserves-commit env)
                (λ _. Preserves-pure a))).at
          c b);
  }
