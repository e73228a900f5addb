-- ===== src/Memory/Recall.antt =====
-- memori/memory/recall.py: class Recall, over the SQLite driver: the search in the local store and
-- the deletion of an entity's memories. Embedding models are outside: `embed` is `_embed_query`.
pub mod Reads
pub mod Forgets
use memori.Prelude.{
  ℕ, zero, suc, String, Option, none, some, List, [], ◌∷◌, ltb, ◌&&◌, if◌then◌else◌,
}
use memori.Exec.{Exec, Result, ok, err, pure, ◌>>=◌, ◌>>◌}
use memori.Conn.{Env, Conn}
use memori.Struct.{present}
use memori.Search.{Floats, Ranking, FactSearchResult}
use memori.Search.Core.{search_entity_facts}
use memori.Sqlite.Entity
use memori.Sqlite.EntityFact
use memori.Sqlite.EntityFact.{Summary}
use memori.Sqlite.KnowledgeGraph
use memori.Memory.Config.{Config}
use memori.Memory.Writer.{is_retryable}

abbrev max_retries : ℕ
max_retries = 3

abbrev pub resolve_limit : Config → Option ℕ → ℕ
resolve_limit config none = config.recall_facts_limit
resolve_limit config (some limit) = limit

-- `entity_external_id or self.config.entity_id`
abbrev pub resolve_external_id : Config → Option String → Option String
resolve_external_id config none = config.entity_id
resolve_external_id config (some x) = some x

module _ (env : Env) where
  abbrev create_for : Option String → Exec Conn (Option ℕ)
  create_for none c = (ok none, c)
  create_for (some x) c = (Entity.create env x >>= λ i. pure (some i)) c

  -- `_resolve_entity_id`
  unfoldable pub resolve_entity_id : Config → Option ℕ → Exec Conn (Option ℕ)
  resolve_entity_id config (some i) = pure (some i)
  resolve_entity_id config none = create_for config.entity_id

  unfoldable pub forget : Option String → Exec Conn (Unit {0})
  forget none = pure tt
  forget (some x) = do
    i ← Entity.create env x
    KnowledgeGraph.delete_by_entity env i
    EntityFact.delete_by_entity env i

  unfoldable pub delete_entity_memories : Config → Option String → Exec Conn (Unit {0})
  unfolding forget
  delete_entity_memories config external_id c =
      if config.has_storage
      then forget (resolve_external_id config (present external_id)) c
      else (ok tt, c)

module _ {F : Type 0} (env : Env) (fl : Floats F) (ranking : Ranking F) (config : Config) where
  abbrev pub Facts : Type 0
  Facts = List (FactSearchResult F ℕ Summary)

  -- The rounds of `for attempt in range(MAX_RETRIES)` that are left.
  unfoldable pub search_attempts : ℕ → List ℕ → ℕ → Option String → ℕ → Exec Conn Facts
  search_attempts entity_id query_embedding limit query zero c = (ok [], c)
  search_attempts entity_id query_embedding limit query (suc k) c =
      let (r, c') =
        search_entity_facts env fl ranking entity_id query_embedding limit
          config.recall_embeddings_limit query c in
      elim r [
        | ok facts ↦ (ok facts, c')
        | err e ↦
            if is_retryable config e && ltb 0 k
            then search_attempts entity_id query_embedding limit query k c'
            else (err e, c')
      ]

  -- `_search_with_retries`
  unfoldable pub search_with_retries : ℕ → List ℕ → ℕ → String → Exec Conn Facts
  unfolding search_attempts
  search_with_retries entity_id query_embedding limit query =
      search_attempts entity_id query_embedding limit (some query) max_retries

  abbrev search_as : (String → List ℕ) → String → ℕ → Option ℕ → Exec Conn Facts
  search_as embed query limit none c = (ok [], c)
  search_as embed query limit (some i) c = search_with_retries i (embed query) limit query c

  -- `search_facts`, of a local store
  unfoldable pub search_facts : (String → List ℕ) → String → Option ℕ → Option ℕ → Exec Conn Facts
  search_facts embed query limit entity_id c =
      if config.has_storage
      then (resolve_entity_id env config entity_id
            >>= search_as embed query (resolve_limit config limit))
          c
      else (ok [], c)
