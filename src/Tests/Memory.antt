-- ===== src/Tests/Memory.antt =====
-- Runs of the writer, the manager, the recall and the queue.
use memori.Prelude.{
  filter, ℕ, ◌≤◌, String, ◌≡◌, refl, none, some, List, [], ◌∷◌, ◌++◌, length, arith, ◌==◌,
  if◌then◌else◌,
}
use memori.Exec.{other, ok}
use memori.Sql.{empty}
use memori.Conn.{Env, execute, get_or_create}
use memori.Sqlite.Entity
use memori.Sqlite.Calls.{entity_create}
use memori.Memory.Config.{App, empty_cache, ensure_cached_id, ensure_entity, ensure_ids}
use memori.Memory.Writer
use memori.Memory.Writer.{ConversationMessage}
use memori.Memory.Writer.Once.{execute_once, Outcome}
use memori.Memory.Manager.{Cloud, Api, persist_cloud_messages_locally, handle_cloud}
use memori.Memory.Manager.Posts.{handle_cloud-Sends, local_failure_sends_again, Sends}
use memori.Memory.Recall.{delete_entity_memories, search_with_retries}
use memori.Memory.Recall.Reads.{Reads, search_with_retries-Reads}
use memori.Memory.Recall.Forgets.{ForgetsAll, delete_entity_memories-ForgetsAll}
use memori.Memory.DbWriter.{WriteTask, collect_batch, group_tasks}
use memori.Memory.DbWriter.Order.{tasks_for, is_for, total, collect_batch-order}
use memori.Tests.{calm, shaky, calm-IsQuiet, opened, learnt, config, floats, ranking}

abbrev broken : Env
broken = record calm { fault = λ n. if n == 0 then some other else none }

abbrev start : App
start = record { conn = opened; cache = empty_cache }

abbrev messages : List ConversationMessage
messages =
    record { role = "user"; type = none; text = "hello" }
    ∷ record { role = "assistant"; type = some "text"; text = "hi" }
    ∷ []

execute_once_example : Outcome empty messages (Writer.execute shaky config messages 3 start)
execute_once_example =
    execute_once empty shaky config messages 2 start refl refl
      (record { committed = refl; db = refl })

abbrev cloud : Cloud
cloud = record { app = start; posts = 0 }

-- The second request is accepted.
abbrev api : Api
api n = if n == 1 then ok 201 else ok 500

handle_cloud-Sends_example :
    Sends calm api config messages 3 cloud (handle_cloud calm api config messages cloud)
handle_cloud-Sends_example = handle_cloud-Sends calm api config messages cloud

local_failure_sends_again_example :
    2 ≤ (handle_cloud broken (λ n. ok 201) config messages cloud).1.posts
unfolding persist_cloud_messages_locally ensure_ids ensure_entity ensure_cached_id Entity.create
    get_or_create execute
local_failure_sends_again_example =
    local_failure_sends_again broken (λ n. ok 201) config messages cloud other refl refl
      (omega arith)

search_with_retries-Reads_example :
    Reads
      (λ facts. length facts ≤ 2)
      learnt
      (search_with_retries shaky floats ranking config 1 (1 ∷ []) 2 "tea" learnt)
search_with_retries-Reads_example =
    search_with_retries-Reads shaky floats ranking config 1 (1 ∷ []) 2 "tea" learnt

-- The entity that is configured.
delete_entity_memories-ForgetsAll_example :
    ForgetsAll "ann" (delete_entity_memories calm config (some "") learnt)
delete_entity_memories-ForgetsAll_example =
    delete_entity_memories-ForgetsAll calm config (some "") "ann" learnt calm-IsQuiet refl refl

abbrev task : ℕ → String → WriteTask
task f x = record { conn_factory = f; method = some (entity_create x) }

abbrev tasks : List WriteTask
tasks = task 1 "a" ∷ task 2 "b" ∷ task 1 "c" ∷ task 1 "d" ∷ []

collect_batch-order_example :
    let (batch, rest) = collect_batch 3 5 tasks in
    (tasks_for 1 (group_tasks batch []) ++ filter (is_for 1) rest ≡ filter (is_for 1) tasks)
    × (total (group_tasks batch []) ≡ length batch)
    × (length batch ≤ 3)
collect_batch-order_example = collect_batch-order 3 5 tasks 1
