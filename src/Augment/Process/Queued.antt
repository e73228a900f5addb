-- ===== src/Augment/Process/Queued.antt =====
-- What of the scheduled writes reaches the queue.
use mathlib.Core.List.{append-nil, append_assoc}
use memori.Prelude.{
  ℕ, ◌+◌, ◌≤◌, ◌≡◌, ◌≢◌, refl, ap, ◌∙◌, Bool, true, false, Option, none, some, List, [], ◌∷◌, ◌++◌,
  map, length, length-append, arith, ◌⊎◌, inl, inr,
}
use memori.Exec.{
  Exec, Result, ok, err, Exc, operational, attribute_error, runtime_error, integrity_error,
  not_implemented, api_error, quota, other,
}
use memori.Conn.{Env, Conn}
use memori.Sqlite.Calls.{Call}
use memori.Memory.DbWriter.{WriteTask, DbWriterRuntime, enqueue_write, is_full, put}
use memori.Augment.Process.{
  Work, Processed, keep_quota, run_augmentations, enqueue_writes, process_augmentations,
}

abbrev pub task_of : ℕ → Call → WriteTask
task_of conn_factory call = record { conn_factory = conn_factory; method = some call }

-- There is room for so many tasks.
abbrev pub HasRoom : DbWriterRuntime → List WriteTask → ℕ → Type 0
HasRoom w tasks n = (w.maxsize ≡ 0) ⊎ (length tasks + n ≤ w.maxsize)

one-room :
    (w : DbWriterRuntime) (tasks : List WriteTask) (call : Call) (calls : List Call)
    → HasRoom w tasks (length (call ∷ calls))
    → is_full w.maxsize tasks ≡ false
one-room w tasks call calls room = ground arith

rest-room :
    (w : DbWriterRuntime) (tasks : List WriteTask) (task : WriteTask) (call : Call)
    (calls : List Call)
    → HasRoom w tasks (length (call ∷ calls))
    → HasRoom w (tasks ++ task ∷ []) (length calls)
rest-room w tasks task call calls (inl h) = inl h
rest-room w tasks task call calls (inr h) = inr (omega (arith, length-append tasks (task ∷ [])))

put-some :
    (w : DbWriterRuntime) (tasks : List WriteTask) (task : WriteTask)
    → w.queue ≡ some tasks
    → is_full w.maxsize tasks ≡ false
    → put task w w.queue ≡ (true, record w { queue = some (tasks ++ task ∷ []) })
put-some w tasks task q full = ground arith

enqueue_writes-all :
    (conn_factory : ℕ) (calls : List Call) (w : DbWriterRuntime) (tasks : List WriteTask)
    → w.queue ≡ some tasks
    → HasRoom w tasks (length calls)
    → (enqueue_writes conn_factory calls w).queue ≡ some (tasks ++ map (task_of conn_factory) calls)
unfolding enqueue_writes enqueue_write
enqueue_writes-all conn_factory [] w tasks q room = rw (append-nil tasks) q
enqueue_writes-all conn_factory (call ∷ calls) w tasks q room =
    let next = record w { queue = some (tasks ++ task_of conn_factory call ∷ []) } in
    ap (λ (r : Bool × DbWriterRuntime). (enqueue_writes conn_factory calls r.1).queue)
      (put-some w tasks (task_of conn_factory call) q (one-room w tasks call calls room))
    ∙ (enqueue_writes-all conn_factory calls next (tasks ++ task_of conn_factory call ∷ []) refl
          (rest-room w tasks (task_of conn_factory call) call calls room)
        ∙ rw (append_assoc tasks (task_of conn_factory call ∷ []) _) refl)

-- What running a list of augmentations means: each goes on from what the one before it left, whether
-- that returned or raised, and the quota error alone ends the run and is raised.
pub data Ran : List (Exec Work (Unit {0})) → Work → Option Exc → Work → Type 0 where
  no_more : {w : Work} → Ran [] w none w
  went_on :
      {aug : Exec Work (Unit {0})} {augs : List (Exec Work (Unit {0}))} {w w' : Work}
      {raised : Option Exc}
      → (aug w).0 ≢ err quota
      → Ran augs (aug w).1 raised w'
      → Ran (aug ∷ augs) w raised w'
  stopped :
      {aug : Exec Work (Unit {0})} {augs : List (Exec Work (Unit {0}))} {w : Work}
      → (aug w).0 ≡ err quota
      → Ran (aug ∷ augs) w (some quota) (aug w).1

abbrev outcome : Option Exc → Result (Unit {0})
outcome none = ok tt
outcome (some e) = err e

keep_quota-ok : (r : Result (Unit {0})) (w : Work) → r ≢ err quota → keep_quota (r, w) ≡ (ok tt, w)
keep_quota-ok (ok u) w h = refl
keep_quota-ok (err quota) w h = absurd (h refl)
keep_quota-ok (err (operational b)) w h = refl
keep_quota-ok (err attribute_error) w h = refl
keep_quota-ok (err runtime_error) w h = refl
keep_quota-ok (err integrity_error) w h = refl
keep_quota-ok (err not_implemented) w h = refl
keep_quota-ok (err api_error) w h = refl
keep_quota-ok (err other) w h = refl

keep_quota-quota :
    (r : Result (Unit {0})) (w : Work) → r ≡ err quota → keep_quota (r, w) ≡ (err quota, w)
keep_quota-quota r w h = rw h refl

abbrev next_of : List (Exec Work (Unit {0})) → Result (Unit {0}) × Work → Result (Unit {0}) × Work
next_of augs (r, w) = elim r [ ok _ ↦ run_augmentations augs w | err e ↦ (err e, w) ]

run_augmentations-Ran :
    (augs : List (Exec Work (Unit {0}))) (w w' : Work) (raised : Option Exc)
    → Ran augs w raised w'
    → run_augmentations augs w ≡ (outcome raised, w')
unfolding run_augmentations
run_augmentations-Ran [] w w' raised no_more = refl
run_augmentations-Ran (aug ∷ augs) w w' raised (went_on h ran) =
    ap (next_of augs) (keep_quota-ok (aug w).0 (aug w).1 h)
    ∙ run_augmentations-Ran augs (aug w).1 w' raised ran
run_augmentations-Ran (aug ∷ augs) w w' raised (stopped h) =
    ap (next_of augs) (keep_quota-quota (aug w).0 (aug w).1 h)

-- Every list of augmentations has a run.
data Runs (augs : List (Exec Work (Unit {0}))) (w : Work) : Type 0 where
  runs : {raised : Option Exc} {w' : Work} → Ran augs w raised w' → Runs augs w

Ran-first :
    (aug : Exec Work (Unit {0})) (augs : List (Exec Work (Unit {0}))) (w : Work)
    → ((aug w).0 ≡ err quota) ⊎ ((aug w).0 ≢ err quota)
    → Runs augs (aug w).1
    → Runs (aug ∷ augs) w
Ran-first aug augs w (inl h) rest = runs (stopped h)
Ran-first aug augs w (inr h) (runs ran) = runs (went_on h ran)

is_quota : (r : Result (Unit {0})) → (r ≡ err quota) ⊎ (r ≢ err quota)
is_quota (ok u) = inr (λ h. cc)
is_quota (err quota) = inl refl
is_quota (err (operational b)) = inr (λ h. cc)
is_quota (err attribute_error) = inr (λ h. cc)
is_quota (err runtime_error) = inr (λ h. cc)
is_quota (err integrity_error) = inr (λ h. cc)
is_quota (err not_implemented) = inr (λ h. cc)
is_quota (err api_error) = inr (λ h. cc)
is_quota (err other) = inr (λ h. cc)

Ran-total : (augs : List (Exec Work (Unit {0}))) (w : Work) → Runs augs w
Ran-total [] w = runs no_more
Ran-total (aug ∷ augs) w = Ran-first aug augs w (is_quota (aug w).0) (Ran-total augs (aug w).1)

abbrev pub start : Conn → Work
start conn = record { conn = conn; writes = [] }

-- What is raised, and what the queue is, after a run that left `writes`.
abbrev pub Queued :
    ℕ → DbWriterRuntime → List WriteTask → Processed → Option Exc → List Call → Type 0
Queued conn_factory writer tasks p none writes =
    (p.raised ≡ none) × (p.writer.queue ≡ some (tasks ++ map (task_of conn_factory) writes))
Queued conn_factory writer tasks p (some e) writes = (p.raised ≡ some e) × (p.writer ≡ writer)

-- If the queue has room for all that the augmentations of a run schedule, also those that raise,
-- then it ends with that in order, once, unless the run ends with the quota error: then that is
-- raised and the queue is as it was. A run goes on after every other error.
pub process_augmentations-Queued :
    (env : Env) (conn_factory : ℕ) (augmentations : List (Exec Work (Unit {0}))) (conn : Conn)
    (writer : DbWriterRuntime) (tasks : List WriteTask) (raised : Option Exc) (w : Work)
    → Ran augmentations (start conn) raised w
    → writer.queue ≡ some tasks
    → HasRoom writer tasks (length w.writes)
    → Queued conn_factory writer tasks
        (process_augmentations env conn_factory augmentations conn writer)
        raised
        w.writes
unfolding process_augmentations
process_augmentations-Queued env conn_factory augmentations conn writer tasks none w ran q room =
    rw (run_augmentations-Ran augmentations (start conn) w none ran)
      (refl, enqueue_writes-all conn_factory w.writes writer tasks q room)
process_augmentations-Queued env conn_factory augmentations conn writer tasks (some e) w ran q
      room =
    rw (run_augmentations-Ran augmentations (start conn) w (some e) ran) (refl, refl)
