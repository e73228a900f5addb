-- ===== src/Augment/Manager.antt =====
-- class Manager of memori/memory/augmentation/_manager.py: what it schedules, and how the results of
-- the scheduled tasks change it. The event loop runs a task and calls back with its result: tasks
-- are numbered in the order in which they are scheduled.
pub mod Quota
use memori.Prelude.{
  ℕ, suc, Bool, true, false, Option, none, some, List, [], ◌∷◌, ◌++◌, filter, not, any, ◌&&◌, ◌==◌,
  if◌then◌else◌,
}
use memori.Exec.{Exc, quota, runtime_error, Exec, Result, ok, err, pure, raise, ◌>>=◌}

-- The manager's fields, the tasks it has scheduled, and whether its runtime is ready with a loop.
pub record Manager : Type 0 where
  pub conn_factory : Option ℕ
  pub active : Bool
  pub quota_error : Option Exc
  pub pending_futures : List ℕ
  pub scheduled : ℕ
  pub ready : Bool
  pub has_loop : Bool

abbrev pub new_manager : Manager
new_manager = record {
  conn_factory = none;
  active = false;
  quota_error = none;
  pending_futures = [];
  scheduled = 0;
  ready = false;
  has_loop = false;
}

-- `start(conn)`; the runtime's thread sets its loop and then `ready` on its own.
unfoldable pub start : Option ℕ → Manager → Manager
start none m = m
start (some conn) m = record m { conn_factory = some conn; active = true }

-- `run_coroutine_threadsafe` and `append`
abbrev pub schedule : Exec Manager (Unit {0})
schedule m = (
  ok tt,
  record m { pending_futures = m.pending_futures ++ m.scheduled ∷ []; scheduled = suc m.scheduled },
)

abbrev pub enqueue_active : Bool → Option ℕ → Exec Manager (Unit {0})
enqueue_active true (some conn) m =
    if m.ready
    then if m.has_loop then schedule m else (err runtime_error, m)
    else (err runtime_error, m)
enqueue_active active conn m = (ok tt, m)

abbrev pub enqueue_unless : Option Exc → Exec Manager (Unit {0})
enqueue_unless (some e) m = (err e, m)
enqueue_unless none m = enqueue_active m.active m.conn_factory m

unfoldable pub enqueue : Exec Manager (Unit {0})
enqueue m = enqueue_unless m.quota_error m

-- The `except` clauses, by the result of the task.
abbrev pub note : Result (Unit {0}) → Manager → Manager
note (ok u) m = m
note (err quota) m = record m { quota_error = some quota; active = false }
note (err e) m = m

-- `if future in self._pending_futures: self._pending_futures.remove(future)`
unfoldable pub remove : ℕ → List ℕ → List ℕ
remove future [] = []
remove future (f ∷ futures) =
    let rest = remove future futures in if f == future then futures else f ∷ rest

unfoldable pub handle_augmentation_result : ℕ → Result (Unit {0}) → Manager → Manager
unfolding remove
handle_augmentation_result future result m = record (note result m) {
  pending_futures = remove future m.pending_futures;
}

-- What may happen to a manager: calls of its users, the results of its tasks, and its runtime.
pub data Event : Type 0 where
  started : Option ℕ → Event
  enqueued : Event
  finished : ℕ → Result (Unit {0}) → Event
  runtime_ready : Event

-- What an `enqueue` raises, if the event is one, and the manager after it.
unfoldable pub step : Event → Manager → Option (Result (Unit {0})) × Manager
unfolding start enqueue handle_augmentation_result
step (started conn) m = (none, start conn m)
step enqueued m = let (r, m') = enqueue m in (some r, m')
step (finished future result) m = (none, handle_augmentation_result future result m)
step runtime_ready m = (none, record m { ready = true; has_loop = true })

-- The answers of the calls of `enqueue`, in order.
unfoldable pub run : List Event → Manager → List (Result (Unit {0})) × Manager
unfolding step
run [] m = ([], m)
run (e ∷ events) m =
    let (r, m') = step e m in
    let (answers, m'') = run events m' in (elim r [ none ↦ answers | some a ↦ a ∷ answers ], m'')
