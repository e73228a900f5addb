-- ===== src/Memory/DbWriter/Keys.antt =====
-- A batch keeps what the tables' constraints promise.
use memori.Prelude.{Option, none, some, List, [], ◌∷◌}
use memori.Exec.{Result, ok, err, for_each}
use memori.Exec.Preserves.{Preserves, Preserves-bind, Preserves-for_each}
use memori.Conn.{Env, Conn, commit}
use memori.Conn.Quiet.{Both, Preserves-commit, Preserves-rollback}
use memori.Sqlite.Calls.{Call, perform, run_calls}
use memori.Sqlite.Keys.{IsKeyed}
use memori.Sqlite.Keys.Runs.{run_calls-IsKeyed}
use memori.Memory.DbWriter.{WriteTask, execute_method, execute_task, undo, leave, run_group}

module _ (env : Env) where
  perform-IsKeyed : (call : Call) → Preserves (Both IsKeyed) (perform env call)
  unfolding run_calls
  perform-IsKeyed call = record { at = λ c b. run_calls-IsKeyed env (call ∷ []) c b }

  execute_task-IsKeyed : (task : WriteTask) → Preserves (Both IsKeyed) (execute_task env task)
  execute_task-IsKeyed task = go task.method
    where
      go : (m : Option Call) → Preserves (Both IsKeyed) (execute_method env m)
      go none = record { at = λ c b. b }
      go (some call) = record { at = (perform-IsKeyed call).at }

  undo-IsKeyed : (r : Result (Unit {0}) × Conn) → Both IsKeyed r.1 → Both IsKeyed (undo env r)
  undo-IsKeyed (ok u, c) b = b
  undo-IsKeyed (err e, c) b = (Preserves-rollback env).at c b

  leave-IsKeyed : (r : Result (Unit {0}) × Conn) → Both IsKeyed r.1 → Both IsKeyed (leave env r).1
  leave-IsKeyed (ok u, c) b = b
  leave-IsKeyed (err e, c) b = (Preserves-rollback env).at c b

-- The tasks of one factory, done over a connection both of whose databases have ascending ids and
-- no two rows that a uniqueness constraint (other than that of `uuid`) keeps apart, leave such a
-- connection, whichever statements, commits and rollbacks raise.
pub run_group-IsKeyed :
    (env : Env) (tasks : List WriteTask) (c : Conn)
    → Both IsKeyed c
    → Both IsKeyed (run_group env tasks c).1
unfolding run_group
run_group-IsKeyed env tasks c b =
    let body =
      Preserves-bind (for_each tasks (execute_task env)) (λ _. commit env)
        (Preserves-for_each tasks (execute_task env) (execute_task-IsKeyed env))
        (λ _. Preserves-commit env) in
    leave-IsKeyed env _ ((Preserves-commit env).at _ (undo-IsKeyed env _ (body.at c b)))
