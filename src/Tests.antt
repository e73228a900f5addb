-- ===== src/Tests.antt =====
-- Runs of the modelled code at concrete inputs: what they share.
pub mod Driver
pub mod Graph
pub mod Memory
pub mod Search
pub mod Storage
pub mod Answers
pub mod Servers
pub mod Services
pub mod Turns
pub mod Engine
pub mod Augmented
pub mod Recalled
use memori.Prelude.{
  ℕ, ◌+◌, ◌*◌, refl, Bool, true, false, none, some, [], ◌∷◌, map, length, ltb, ◌==◌, ◌||◌,
  if◌then◌else◌,
}
use memori.Exec.{operational, other}
use memori.Sql.{empty}
use memori.Sql.Laws.{IsSound}
use memori.Schema.{empty_db}
use memori.Conn.{Env, Conn}
use memori.Conn.Quiet.{Both, IsQuiet}
use memori.Sqlite.Calls.{entity_fact_create, run_calls}
use memori.Sqlite.Keys.{IsKeyed}
use memori.Memory.Config.{Config}
use memori.Search.{Floats, Ranking}

-- A database that never fails, whose clock shows the number of the statement.
abbrev pub calm : Env
calm = record {
  uuid4 = λ n. "u";
  now = λ n. n;
  fault = λ n. none;
  gap = λ n. 1;
  lower = λ l. l;
  sha256 = λ l. if length l == 2 then "two" else "other";
  pack = λ l. l;
}

-- One that asks for a restart in the statements 7 and 15.
abbrev pub shaky : Env
shaky = record calm { fault = λ n. if n == 7 || n == 15 then some (operational true) else none }

pub calm-IsQuiet : IsQuiet calm
calm-IsQuiet = record { no_fault = λ n. refl }

abbrev pub opened : Conn
opened = record { committed = empty_db; db = empty_db; step = 0 }

empty-IsSound : {R : Type 0} (same : R → R → Bool) → IsSound same empty
empty-IsSound same = record { below = tt; ascending = tt; unique = tt }

empty_db-IsKeyed : IsKeyed empty_db
empty_db-IsKeyed = record {
  entity = empty-IsSound _;
  process = empty-IsSound _;
  session = empty-IsSound _;
  conversation = empty-IsSound _;
  conversation_message = empty-IsSound _;
  entity_fact = empty-IsSound _;
  process_attribute = empty-IsSound _;
  subject = empty-IsSound _;
  predicate = empty-IsSound _;
  object = empty-IsSound _;
  knowledge_graph = empty-IsSound _;
  entity_fact_mention = empty-IsSound _;
}

pub opened-IsKeyed : Both IsKeyed opened
opened-IsKeyed = record { committed = empty_db-IsKeyed; db = empty_db-IsKeyed }

-- Two facts, of which the first was stored twice.
abbrev pub learnt : Conn
learnt =
    run_calls calm (entity_fact_create 1 (some ("ab" ∷ "abc" ∷ "cd" ∷ [])) none (some 4) ∷ [])
      opened

abbrev pub config : Config
config = record {
  cloud = false;
  entity_id = some "ann";
  process_id = none;
  session_id = "s";
  session_timeout_minutes = 30;
  request_num_backoff = 3;
  recall_facts_limit = 5;
  recall_embeddings_limit = 1000;
  has_storage = true;
  has_adapter = true;
  has_sqlalchemy = true;
}

-- Numbers for floats.
abbrev pub floats : Floats ℕ
floats = record { zero = 0; add = λ a b. a + b; mul = λ a b. a * b; lt = ltb; eq = λ a b. a == b }

abbrev pub ranking : Ranking ℕ
ranking = record {
  find_similar_embeddings = λ rows q k. [];
  lexical_scores_for_ids = λ q ids contents. map (λ i. (i, i)) ids;
  dense_lexical_weights = λ q. (3, 1);
}
