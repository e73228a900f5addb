-- ===== src/Sqlite/EntityFact.antt =====
-- class EntityFact
pub mod Counts
pub mod Lookup
pub mod Freshest
use memori.Prelude.{
  ℕ, suc, ◌+◌, String, Bool, Option, none, some, List, [], ◌∷◌, ◌++◌, ◌&&◌, map, any, filter, find?,
  take, get_elem?, ltb, ◌==◌, str_eq, if◌then◌else◌,
}
use memori.Prelude.Sort.{sort}
use memori.Exec.{Exec, integrity_error, pure, or_raise, ◌>>=◌, ◌>>◌}
use memori.Sql.{Row, insert_or_ignore, upsert, select_one, select_id, delete, select, id_of}
use memori.Schema.{Db, FactRow, MentionRow, ConversationRow}
use memori.Conn.{Env, Conn, Stamp, write, query, commit}
use memori.Utils.{generate_uniq}

-- UNIQUE (entity_id, uniq)
abbrev pub keyed : ℕ → String → FactRow → Bool
keyed entity_id uniq r = entity_id == r.entity_id && str_eq uniq r.uniq

-- num_times = num_times + 1, date_last_time = datetime('now')
abbrev pub seen_again : ℕ → FactRow → FactRow
seen_again now r = record r { num_times = r.num_times + 1; date_last_time = now }

unfoldable pub upsert_fact : ℕ → String → List ℕ → String → Stamp → Db → Db
upsert_fact entity_id fact embedding uniq s db = record db {
  entity_fact =
      upsert (keyed entity_id uniq) (seen_again s.now) s.gap
        (record {
          uuid = s.uuid;
          entity_id = entity_id;
          content = fact;
          content_embedding = embedding;
          num_times = 1;
          date_last_time = s.now;
          uniq = uniq;
          date_created = s.now;
          date_updated = none;
        })
        db.entity_fact;
}

-- UNIQUE (entity_id, fact_id, conversation_id)
abbrev pub mentioned : ℕ → ℕ → ℕ → MentionRow → Bool
mentioned entity_id fact_id conversation_id r =
    entity_id == r.entity_id && (fact_id == r.fact_id && conversation_id == r.conversation_id)

unfoldable pub insert_mention : ℕ → ℕ → ℕ → Stamp → Db → Db
insert_mention entity_id fact_id conversation_id s db = record db {
  entity_fact_mention =
      insert_or_ignore (mentioned entity_id fact_id conversation_id) s.gap
        (record {
          uuid = s.uuid;
          entity_id = entity_id;
          fact_id = fact_id;
          conversation_id = conversation_id;
          date_created = s.now;
          date_updated = none;
        })
        db.entity_fact_mention;
}

unfoldable pub mention_found : Env → ℕ → ℕ → Option ℕ → Exec Conn (Unit {0})
mention_found env entity_id conversation_id none = pure tt
mention_found env entity_id conversation_id (some fact_id) =
    write env (insert_mention entity_id fact_id conversation_id)

-- `if conversation_id is not None`
unfoldable pub create_mention : Env → ℕ → Option ℕ → String → Exec Conn (Unit {0})
unfolding mention_found
create_mention env entity_id none uniq = pure tt
create_mention env entity_id (some conversation_id) uniq = do
  fact_id ← query env (λ db. id_of (select_one (keyed entity_id uniq) db.entity_fact))
  mention_found env entity_id conversation_id fact_id

abbrev or_empty : Option (List ℕ) → List ℕ
or_empty none = []
or_empty (some e) = e

-- `fact_embeddings[i] if fact_embeddings and i < len(fact_embeddings) else []`
abbrev pub embedding_at : Option (List (List ℕ)) → ℕ → List ℕ
embedding_at none i = []
embedding_at (some es) i = or_empty (get_elem? es i)

-- The body of the loop, for the fact of number `i`. A missing `uniq` would break NOT NULL.
unfoldable pub create_fact :
    Env → ℕ → Option (List (List ℕ)) → Option ℕ → ℕ → String → Exec Conn (Unit {0})
unfolding create_mention
create_fact env entity_id fact_embeddings conversation_id i fact = do
  uniq ← or_raise integrity_error (generate_uniq env (fact ∷ []))
  write env (upsert_fact entity_id fact (env.pack (embedding_at fact_embeddings i)) uniq)
  create_mention env entity_id conversation_id uniq

-- `for i, fact in enumerate(facts)`
unfoldable pub create_facts :
    Env → ℕ → Option (List (List ℕ)) → Option ℕ → ℕ → List String → Exec Conn (Unit {0})
create_facts env entity_id fact_embeddings conversation_id i [] = pure tt
create_facts env entity_id fact_embeddings conversation_id i (fact ∷ facts) = do
  create_fact env entity_id fact_embeddings conversation_id i fact
  create_facts env entity_id fact_embeddings conversation_id (suc i) facts

unfoldable pub create :
    Env → ℕ → Option (List String) → Option (List (List ℕ)) → Option ℕ → Exec Conn (Unit {0})
create env entity_id none fact_embeddings conversation_id = pure tt
create env entity_id (some []) fact_embeddings conversation_id = pure tt
create env entity_id (some (fact ∷ facts)) fact_embeddings conversation_id = do
  create_facts env entity_id fact_embeddings conversation_id 0 (fact ∷ facts)
  commit env

abbrev pub of_entity : ℕ → FactRow → Bool
of_entity entity_id r = entity_id == r.entity_id

-- ORDER BY date_last_time DESC, num_times DESC, id DESC
abbrev pub fresher : Row FactRow → Row FactRow → Bool
fresher (i, r) (j, q) =
    if r.date_last_time == q.date_last_time
    then if r.num_times == q.num_times then ltb j i else ltb q.num_times r.num_times
    else ltb q.date_last_time r.date_last_time

abbrev pub to_embedding : Row FactRow → ℕ × List ℕ
to_embedding (i, r) = (i, r.content_embedding)

-- the rows that `get_embeddings` selects
unfoldable pub embedding_rows : ℕ → ℕ → Db → List (Row FactRow)
embedding_rows entity_id limit db =
    take limit (sort fresher (select (of_entity entity_id) db.entity_fact))

unfoldable pub get_embeddings : Env → ℕ → ℕ → Exec Conn (List (ℕ × List ℕ))
unfolding embedding_rows
get_embeddings env entity_id limit =
    query env (λ db. map to_embedding (embedding_rows entity_id limit db))

pub record Summary : Type 0 where
  pub content : String
  pub date_created : ℕ

pub record FactInfo : Type 0 where
  pub id : ℕ
  pub content : String
  pub date_created : ℕ
  pub summaries : List Summary

-- `id IN (…)`
abbrev pub is_in : List ℕ → ℕ → Bool
is_in ids k = any (λ i. i == k) ids

abbrev pub to_info : Row FactRow → FactInfo
to_info (i, r) = record {
  id = i;
  content = r.content;
  date_created = r.date_created;
  summaries = [];
}

-- `fact["summaries"].append(…)` on the entry of `fact_id`, if there is one
abbrev pub add_summary : ℕ → Summary → List FactInfo → List FactInfo
add_summary fact_id s [] = []
add_summary fact_id s (f ∷ fs) =
    if f.id == fact_id
    then record f { summaries = f.summaries ++ s ∷ [] } ∷ fs
    else f ∷ add_summary fact_id s fs

-- COALESCE(c.date_updated, c.date_created)
abbrev date_of : ConversationRow → ℕ
date_of c = elim c.date_updated [ none ↦ c.date_created | some t ↦ t ]

-- A mention joined to its conversation: `c.summary IS NOT NULL AND c.summary != ''`.
abbrev summary_of : Option (Row ConversationRow) → Option Summary
summary_of none = none
summary_of (some (_, c)) = elim c.summary [
  | none ↦ none
  | some text ↦
      if str_eq text "" then none else some (record { content = text; date_created = date_of c })
]

abbrev joined : MentionRow → Option Summary → List (ℕ × Summary)
joined m none = []
joined m (some s) = (m.fact_id, s) ∷ []

-- the query of `summary_rows`
unfoldable pub summary_rows : List ℕ → Db → List (Row MentionRow) → List (ℕ × Summary)
summary_rows ids db [] = []
summary_rows ids db ((_, m) ∷ ms) =
    let rest = summary_rows ids db ms in
    if is_in ids m.fact_id
    then joined m (summary_of (select_id m.conversation_id db.conversation)) ++ rest
    else rest

-- the loop over `summary_rows`
unfoldable pub add_summaries : List (ℕ × Summary) → List FactInfo → List FactInfo
add_summaries [] facts = facts
add_summaries ((fact_id, s) ∷ rows) facts = add_summaries rows (add_summary fact_id s facts)

abbrev pub if_found : Option FactInfo → List FactInfo → List FactInfo
if_found none facts = facts
if_found (some f) facts = f ∷ facts

-- `[facts_by_id[i] for i in fact_ids if i in facts_by_id]`
unfoldable pub in_order : List ℕ → List FactInfo → List FactInfo
in_order [] facts = []
in_order (i ∷ ids) facts = if_found (find? (λ (f : FactInfo). f.id == i) facts) (in_order ids facts)

-- `fact_rows`, before the dict is made of them
abbrev pub facts_in : List ℕ → Db → List FactInfo
facts_in ids db = map to_info (filter (λ (row : Row FactRow). is_in ids row.0) db.entity_fact.rows)

unfoldable pub with_summaries : Env → List ℕ → List FactInfo → Exec Conn (List FactInfo)
unfolding summary_rows add_summaries in_order
with_summaries env ids [] = pure []
with_summaries env ids (f ∷ fs) = do
  rows ← query env (λ db. summary_rows ids db db.entity_fact_mention.rows)
  pure (in_order ids (add_summaries rows (f ∷ fs)))

unfoldable pub get_facts_by_ids : Env → List ℕ → Exec Conn (List FactInfo)
unfolding with_summaries
get_facts_by_ids env [] = pure []
get_facts_by_ids env (i ∷ ids) = do
  facts ← query env (facts_in (i ∷ ids))
  with_summaries env (i ∷ ids) facts

unfoldable pub delete_by_entity : Env → ℕ → Exec Conn (Unit {0})
delete_by_entity env entity_id = do
  write env
      (λ _ db. record db { entity_fact = delete (λ row. of_entity entity_id row.1) db.entity_fact })
  commit env
