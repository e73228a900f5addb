-- ===== src/Memory/DbWriter/Order.antt =====
-- The queue and the batches keep the order of the writes of each factory.
use Prim.Native.Nat.{min}
use mathlib.Core.List.{append_assoc, append-nil}
use memori.Prelude.{
  ℕ, zero, suc, ◌≡◌, refl, sym, ap, ◌∙◌, ◌≤◌, ◌+◌, length-append, Bool, true, false, List, [], ◌∷◌,
  ◌++◌, take, filter, length, arith, ◌==◌, if◌then◌else◌, Bool-cases, inl, inr, filter-append,
}
use memori.Prelude.Sort.{length-take_le}
use memori.Memory.DbWriter.{WriteTask, drop, collect_batch, add_task, group_tasks}

take-drop {ℓ} : {A : Type ℓ} (n : ℕ) (l : List A) → take n l ++ drop n l ≡ l
take-drop zero l = refl
take-drop (suc n) [] = refl
take-drop (suc n) (x ∷ l) = ap (λ t. x ∷ t) (take-drop n l)

-- `by_factory[f]`, or nothing
abbrev pub tasks_for : ℕ → List (ℕ × List WriteTask) → List WriteTask
tasks_for f [] = []
tasks_for f ((g, tasks) ∷ groups) = if g == f then tasks else tasks_for f groups

-- How many tasks the groups have.
abbrev pub total : List (ℕ × List WriteTask) → ℕ
total [] = 0
total ((g, tasks) ∷ groups) = length tasks + total groups

abbrev pub is_for : ℕ → WriteTask → Bool
is_for f task = task.conn_factory == f

tasks_for-add_task :
    (f : ℕ) (task : WriteTask) (groups : List (ℕ × List WriteTask))
    → tasks_for f (add_task task groups)
      ≡ tasks_for f groups ++ (if is_for f task then task ∷ [] else [])
tasks_for-add_task f task [] = refl
tasks_for-add_task f task ((g, tasks) ∷ groups) = elim (Bool-cases (g == task.conn_factory)) [
  | inl same ↦ rw same (elim (Bool-cases (g == f)) [
    | inl asked ↦ let is : (task.conn_factory == f) ≡ true = ground arith in rw (asked, is) refl
    | inr not_asked ↦
        let is_not : (task.conn_factory == f) ≡ false = ground arith in
        rw (not_asked, is_not) (sym (append-nil (tasks_for f groups)))
  ])
  | inr other ↦ rw other (elim (Bool-cases (g == f)) [
    | inl asked ↦
        let is_not : (task.conn_factory == f) ≡ false = ground arith in
        rw (asked, is_not) (sym (append-nil tasks))
    | inr not_asked ↦ rw not_asked (tasks_for-add_task f task groups)
  ])
]

total-add_task :
    (task : WriteTask) (groups : List (ℕ × List WriteTask))
    → total (add_task task groups) ≡ suc (total groups)
total-add_task task [] = omega arith
total-add_task task ((g, tasks) ∷ groups) = elim (Bool-cases (g == task.conn_factory)) [
  | inl same ↦ rw same (omega (arith, length-append tasks (task ∷ [])))
  | inr other ↦ rw other (omega (arith, total-add_task task groups))
]

filter-cons :
    (f : ℕ) (task : WriteTask) (batch : List WriteTask)
    → filter (is_for f) (task ∷ batch)
      ≡ (if is_for f task then task ∷ [] else []) ++ filter (is_for f) batch
filter-cons f task batch = elim (Bool-cases (is_for f task)) [
  | inl is ↦ rw is refl
  | inr is_not ↦ rw is_not refl
]

tasks_for-group_tasks :
    (f : ℕ) (batch : List WriteTask) (groups : List (ℕ × List WriteTask))
    → tasks_for f (group_tasks batch groups) ≡ tasks_for f groups ++ filter (is_for f) batch
unfolding group_tasks
tasks_for-group_tasks f [] groups = sym (append-nil (tasks_for f groups))
tasks_for-group_tasks f (task ∷ batch) groups =
    tasks_for-group_tasks f batch (add_task task groups)
    ∙ rw
        (
          tasks_for-add_task f task groups,
          append_assoc (tasks_for f groups) (if is_for f task then task ∷ [] else [])
              (filter (is_for f) batch),
        )
        (ap (λ l. tasks_for f groups ++ l) (sym (filter-cons f task batch)))

total-group_tasks :
    (batch : List WriteTask) (groups : List (ℕ × List WriteTask))
    → total (group_tasks batch groups) ≡ total groups + length batch
unfolding group_tasks
total-group_tasks [] groups = omega arith
total-group_tasks (task ∷ batch) groups =
    omega (arith, total-group_tasks batch (add_task task groups), total-add_task task groups)

-- `_collect_batch` and the grouping of its batch: for each factory, the tasks of its group followed
-- by those of its tasks that stay in the queue are those of its tasks that were in the queue, in
-- their order; and the groups together have as many tasks as the batch, at most `batch_size`.
pub collect_batch-order :
    (batch_size ready : ℕ) (tasks : List WriteTask) (f : ℕ)
    → let (batch, rest) = collect_batch batch_size ready tasks in
      (tasks_for f (group_tasks batch []) ++ filter (is_for f) rest ≡ filter (is_for f) tasks)
      × (total (group_tasks batch []) ≡ length batch)
      × (length batch ≤ batch_size)
unfolding collect_batch
collect_batch-order batch_size ready tasks f =
    let n = min batch_size ready in
    (
      rw (tasks_for-group_tasks f (take n tasks) []) (
          sym (filter-append (is_for f) (take n tasks) (drop n tasks))
          ∙ ap (filter (is_for f)) (take-drop n tasks)),
      omega (arith, total-group_tasks (take n tasks) []),
      omega (arith, length-take_le n tasks),
    )
