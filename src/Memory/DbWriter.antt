-- ===== src/Memory/DbWriter.antt =====
-- memori/memory/augmentation/_db_writer.py: the queue of writes, and how a batch of them is done.
-- The thread that calls `_drain_batches` and the clock are outside: how many tasks a round gets
-- before its deadline is given.
pub mod Order
pub mod Keys
use Prim.Native.Nat.{min}
use memori.Prelude.{
  ℕ, zero, suc, Bool, true, false, Option, none, some, List, [], ◌∷◌, ◌++◌, take, length, ltb, leb,
  ◌==◌, ◌&&◌, if◌then◌else◌,
}
use memori.Exec.{Exec, Result, ok, err, pure, for_each, ◌>>=◌, ◌>>◌}
use memori.Schema.{Db}
use memori.Conn.{Env, Conn, commit, rollback}
use memori.Sqlite.Calls.{Call, perform}

-- A factory of connections is a number. `method` is the call that `method_path` and the arguments
-- name, if the path leads to a method of the driver.
pub record WriteTask : Type 0 where
  pub conn_factory : ℕ
  pub method : Option Call

pub record DbWriterRuntime : Type 0 where
  pub queue : Option (List WriteTask)
  pub maxsize : ℕ
  pub batch_size : ℕ

-- The queue is made once.
unfoldable pub configure : ℕ → ℕ → DbWriterRuntime → DbWriterRuntime
configure batch_size queue_size w = elim w.queue [
  | none ↦ record { queue = some []; maxsize = queue_size; batch_size = batch_size }
  | some _ ↦ record w { batch_size = batch_size }
]

-- `Queue(maxsize=0)` has no bound.
abbrev pub is_full : ℕ → List WriteTask → Bool
is_full maxsize tasks = ltb 0 maxsize && leb maxsize (length tasks)

abbrev pub put : WriteTask → DbWriterRuntime → Option (List WriteTask) → Bool × DbWriterRuntime
put task w none = (false, w)
put task w (some tasks) =
    if is_full w.maxsize tasks
    then (false, w)
    else (true, record w { queue = some (tasks ++ task ∷ []) })

-- `enqueue_write`, where no task is taken from the queue during the timeout
unfoldable pub enqueue_write : WriteTask → DbWriterRuntime → Bool × DbWriterRuntime
enqueue_write task w = put task w w.queue

abbrev pub drop {ℓ} : {A : Type ℓ} → ℕ → List A → List A
drop zero l = l
drop (suc n) [] = []
drop (suc n) (x ∷ l) = drop n l

-- `_collect_batch`, of a round that gets at most `ready` tasks before its deadline
unfoldable pub collect_batch : ℕ → ℕ → List WriteTask → List WriteTask × List WriteTask
collect_batch batch_size ready tasks =
    (take (min batch_size ready) tasks, drop (min batch_size ready) tasks)

-- `by_factory.setdefault(task.conn_factory, []).append(task)`
abbrev pub add_task : WriteTask → List (ℕ × List WriteTask) → List (ℕ × List WriteTask)
add_task task [] = (task.conn_factory, task ∷ []) ∷ []
add_task task ((f, tasks) ∷ groups) =
    let rest = add_task task groups in
    if f == task.conn_factory then (f, tasks ++ task ∷ []) ∷ groups else (f, tasks) ∷ rest

unfoldable pub group_tasks : List WriteTask → List (ℕ × List WriteTask) → List (ℕ × List WriteTask)
group_tasks [] groups = groups
group_tasks (task ∷ batch) groups = group_tasks batch (add_task task groups)

module _ (env : Env) where
  abbrev pub execute_method : Option Call → Exec Conn (Unit {0})
  execute_method none c = (ok tt, c)
  execute_method (some call) c = perform env call c

  -- `WriteTask.execute`
  abbrev pub execute_task : WriteTask → Exec Conn (Unit {0})
  execute_task task = execute_method task.method

  -- `except Exception:` with a rollback whose own error is dropped
  abbrev pub undo : Result (Unit {0}) × Conn → Conn
  undo (ok _, c) = c
  undo (err _, c) = (rollback env c).1

  -- `connection_context` commits once more, and rolls back and raises if that fails.
  abbrev pub leave : Result (Unit {0}) × Conn → Result (Unit {0}) × Conn
  leave (ok u, c) = (ok u, c)
  leave (err e, c) = (err e, (rollback env c).1)

  -- The tasks of one factory, over its open connection.
  unfoldable pub run_group : List WriteTask → Exec Conn (Unit {0})
  run_group tasks c = leave (commit env (undo ((for_each tasks execute_task >> commit env) c)))
