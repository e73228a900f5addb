-- ===== src/Mysql/EntityFact.antt =====
-- class EntityFact
use memori.Prelude.{
  ℕ, suc, ◌+◌, String, Bool, Option, none, some, List, [], ◌∷◌, ◌||◌, map, any, if◌then◌else◌,
}
use memori.Exec.{Exec, integrity_error, pure, or_raise, ◌>>=◌, ◌>>◌}
use memori.Sql.{upsert, columns, select_one, id_of}
use memori.Schema.{Db, FactRow}
use memori.Conn.{Env, Conn, Stamp, write, query, commit}
use memori.Server.{write_checked}
use memori.Foreign.{fact_fits, mention_fits, delete_facts}
use memori.Utils.{generate_uniq_text}
use memori.Sqlite.EntityFact.{
  keyed, insert_mention, embedding_at, to_embedding, embedding_rows, FactInfo, facts_in,
  summary_rows, add_summaries, in_order,
}

-- num_times = num_times + 1, date_last_time = current_timestamp(); ON UPDATE sets date_updated
abbrev pub fact_again : ℕ → FactRow → FactRow
fact_again now r = record r {
  num_times = r.num_times + 1;
  date_last_time = now;
  date_updated = some now;
}

unfoldable pub upsert_fact : ℕ → String → List ℕ → String → Stamp → Db → Db
upsert_fact entity_id fact embedding uniq s db = record db {
  entity_fact =
      upsert (keyed entity_id uniq) (fact_again s.now) s.gap
        (record {
          uuid = s.uuid;
          entity_id = entity_id;
          content = fact;
          content_embedding = embedding;
          num_times = 1;
          date_last_time = s.now;
          uniq = uniq;
          date_created = s.now;
          date_updated = none;
        })
        db.entity_fact;
}

-- The row is there, or its entity is.
abbrev pub fact_ready : ℕ → String → Db → Bool
fact_ready entity_id uniq db =
    any (columns (keyed entity_id uniq)) db.entity_fact.rows || fact_fits entity_id db

-- INSERT IGNORE, which also leaves out a row whose foreign keys are not met
unfoldable pub insert_mention_ignore : ℕ → ℕ → ℕ → Stamp → Db → Db
insert_mention_ignore entity_id fact_id conversation_id s db =
    if mention_fits entity_id fact_id conversation_id db
    then insert_mention entity_id fact_id conversation_id s db
    else record db {
      entity_fact_mention = record db.entity_fact_mention {
        next_id = db.entity_fact_mention.next_id + s.gap;
      };
    }

unfoldable pub mention_found : Env → ℕ → ℕ → Option ℕ → Exec Conn (Unit {0})
mention_found env entity_id conversation_id none = pure tt
mention_found env entity_id conversation_id (some fact_id) =
    write env (insert_mention_ignore entity_id fact_id conversation_id)

-- `if conversation_id is not None`
unfoldable pub create_mention : Env → ℕ → Option ℕ → String → Exec Conn (Unit {0})
unfolding mention_found
create_mention env entity_id none uniq = pure tt
create_mention env entity_id (some conversation_id) uniq = do
  fact_id ← query env (λ db. id_of (select_one (keyed entity_id uniq) db.entity_fact))
  mention_found env entity_id conversation_id fact_id

-- The body of the loop, for the fact of number `i`. A missing `uniq` would break NOT NULL.
unfoldable pub create_fact :
    Env → ℕ → Option (List (List ℕ)) → Option ℕ → ℕ → String → Exec Conn (Unit {0})
unfolding create_mention
create_fact env entity_id fact_embeddings conversation_id i fact = do
  uniq ← or_raise integrity_error (generate_uniq_text env fact)
  write_checked env (fact_ready entity_id uniq)
      (upsert_fact entity_id fact (env.pack (embedding_at fact_embeddings i)) uniq)
  create_mention env entity_id conversation_id uniq

-- `for i, fact in enumerate(facts)`
unfoldable pub create_facts :
    Env → ℕ → Option (List (List ℕ)) → Option ℕ → ℕ → List String → Exec Conn (Unit {0})
create_facts env entity_id fact_embeddings conversation_id i [] = pure tt
create_facts env entity_id fact_embeddings conversation_id i (fact ∷ facts) = do
  create_fact env entity_id fact_embeddings conversation_id i fact
  create_facts env entity_id fact_embeddings conversation_id (suc i) facts

unfoldable pub create :
    Env → ℕ → Option (List String) → Option (List (List ℕ)) → Option ℕ → Exec Conn (Unit {0})
create env entity_id none fact_embeddings conversation_id = pure tt
create env entity_id (some []) fact_embeddings conversation_id = pure tt
create env entity_id (some (fact ∷ facts)) fact_embeddings conversation_id = do
  create_facts env entity_id fact_embeddings conversation_id 0 (fact ∷ facts)
  commit env

-- The order is that of SQLite's query.
unfoldable pub get_embeddings : Env → ℕ → ℕ → Exec Conn (List (ℕ × List ℕ))
get_embeddings env entity_id limit =
    query env (λ db. map to_embedding (embedding_rows entity_id limit db))

-- From `if not fact_rows` on. The rows of a mention stand in the order of the table.
unfoldable pub with_summaries : Env → List ℕ → List FactInfo → Exec Conn (List FactInfo)
with_summaries env ids [] = pure []
with_summaries env ids (f ∷ fs) = do
  rows ← query env (λ db. summary_rows ids db db.entity_fact_mention.rows)
  pure (in_order ids (add_summaries rows (f ∷ fs)))

unfoldable pub get_facts_by_ids : Env → List ℕ → Exec Conn (List FactInfo)
unfolding with_summaries
get_facts_by_ids env [] = pure []
get_facts_by_ids env (i ∷ ids) = do
  facts ← query env (facts_in (i ∷ ids))
  with_summaries env (i ∷ ids) facts

unfoldable pub delete_by_entity : Env → ℕ → Exec Conn (Unit {0})
delete_by_entity env entity_id = do write env (λ _. delete_facts entity_id); commit env
