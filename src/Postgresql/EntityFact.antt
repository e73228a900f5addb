-- ===== src/Postgresql/EntityFact.antt =====
-- class EntityFact
use memori.Prelude.{ℕ, suc, String, Bool, Option, none, some, List, [], ◌∷◌, ◌||◌, map, any}
use memori.Exec.{Exec, integrity_error, pure, or_raise, ◌>>=◌, ◌>>◌}
use memori.Sql.{columns, select_one, id_of}
use memori.Schema.{Db}
use memori.Conn.{Env}
use memori.Foreign.{fact_fits, mention_fits, delete_facts}
use memori.Utils.{generate_uniq}
use memori.Postgresql.Session.{Session, write, write_checked, query, commit}
use memori.Sqlite.EntityFact.{
  keyed, mentioned, upsert_fact, insert_mention, embedding_at, to_embedding, embedding_rows,
  FactInfo, facts_in, summary_rows, add_summaries, in_order,
}

-- The row is there, or what it refers to is.
abbrev pub fact_ready : ℕ → String → Db → Bool
fact_ready entity_id uniq db =
    any (columns (keyed entity_id uniq)) db.entity_fact.rows || fact_fits entity_id db

abbrev pub mention_ready : ℕ → ℕ → ℕ → Db → Bool
mention_ready entity_id fact_id conversation_id db =
    any (columns (mentioned entity_id fact_id conversation_id)) db.entity_fact_mention.rows
    || mention_fits entity_id fact_id conversation_id db

unfoldable pub mention_found : Env → ℕ → ℕ → Option ℕ → Exec Session (Unit {0})
mention_found env entity_id conversation_id none = pure tt
mention_found env entity_id conversation_id (some fact_id) =
    write_checked env (mention_ready entity_id fact_id conversation_id)
      (insert_mention entity_id fact_id conversation_id)

-- `if conversation_id is not None`
unfoldable pub create_mention : Env → ℕ → Option ℕ → String → Exec Session (Unit {0})
unfolding mention_found
create_mention env entity_id none uniq = pure tt
create_mention env entity_id (some conversation_id) uniq = do
  fact_id ← query env (λ db. id_of (select_one (keyed entity_id uniq) db.entity_fact))
  mention_found env entity_id conversation_id fact_id

-- The body of the loop, for the fact of number `i`. A missing `uniq` would break NOT NULL.
unfoldable pub create_fact :
    Env → ℕ → Option (List (List ℕ)) → Option ℕ → ℕ → String → Exec Session (Unit {0})
unfolding create_mention
create_fact env entity_id fact_embeddings conversation_id i fact = do
  uniq ← or_raise integrity_error (generate_uniq env (fact ∷ []))
  write_checked env (fact_ready entity_id uniq)
      (upsert_fact entity_id fact (env.pack (embedding_at fact_embeddings i)) uniq)
  create_mention env entity_id conversation_id uniq

-- `for i, fact in enumerate(facts)`
unfoldable pub create_facts :
    Env → ℕ → Option (List (List ℕ)) → Option ℕ → ℕ → List String → Exec Session (Unit {0})
create_facts env entity_id fact_embeddings conversation_id i [] = pure tt
create_facts env entity_id fact_embeddings conversation_id i (fact ∷ facts) = do
  create_fact env entity_id fact_embeddings conversation_id i fact
  create_facts env entity_id fact_embeddings conversation_id (suc i) facts

-- It does not commit.
unfoldable pub create :
    Env → ℕ → Option (List String) → Option (List (List ℕ)) → Option ℕ → Exec Session (Unit {0})
create env entity_id none fact_embeddings conversation_id = pure tt
create env entity_id (some facts) fact_embeddings conversation_id =
    create_facts env entity_id fact_embeddings conversation_id 0 facts

-- The order is that of SQLite's query.
unfoldable pub get_embeddings : Env → ℕ → ℕ → Exec Session (List (ℕ × List ℕ))
get_embeddings env entity_id limit =
    query env (λ db. map to_embedding (embedding_rows entity_id limit db))

-- From `if not fact_rows` on. The rows of a mention stand in the order of the table.
unfoldable pub with_summaries : Env → List ℕ → List FactInfo → Exec Session (List FactInfo)
with_summaries env ids [] = pure []
with_summaries env ids (f ∷ fs) = do
  rows ← query env (λ db. summary_rows ids db db.entity_fact_mention.rows)
  pure (in_order ids (add_summaries rows (f ∷ fs)))

-- An empty list is asked for, too.
unfoldable pub get_facts_by_ids : Env → List ℕ → Exec Session (List FactInfo)
unfolding with_summaries
get_facts_by_ids env ids = do facts ← query env (facts_in ids); with_summaries env ids facts

unfoldable pub delete_by_entity : Env → ℕ → Exec Session (Unit {0})
delete_by_entity env entity_id = do write env (λ _. delete_facts entity_id); commit env
