-- ===== src/Memory/Recall/Reads.antt =====
-- A search reads only.
use memori.Prelude.{
  ℕ, zero, suc, ◌≤◌, String, ◌≡◌, refl, Option, some, List, [], ◌∷◌, length, arith, ltb, ◌&&◌,
  if◌then◌else◌, Bool-cases, Option-cases, inl, inr, ◌∙◌, map,
}
use memori.Exec.{Exec, Result, ok, err, continue}
use memori.Conn.{Env, Conn, execute, query}
use memori.Search.{Floats, Ranking, FactSearchResult}
use memori.Search.Core.{search_entity_facts, search_rows, search_similar, query_of, index}
use memori.Search.Bounds.{length-search_pool}
use memori.Sqlite.EntityFact.{Summary, FactInfo, get_embeddings, get_facts_by_ids, with_summaries}
use memori.Schema.{Db}
use memori.Memory.Config.{Config}
use memori.Memory.Writer.{is_retryable}
use memori.Memory.Recall.{search_attempts, search_with_retries}

-- The state of the connection's databases is that of `c`, and what is returned is in `Q`.
abbrev pub Reads : {A : Type 0} → (A → Type 0) → Conn → Result A × Conn → Type 0
Reads Q c (ok a, c') = (c'.db ≡ c.db) × (c'.committed ≡ c.committed) × Q a
Reads Q c (err _, c') = (c'.db ≡ c.db) × (c'.committed ≡ c.committed) × Unit

abbrev Any : {A : Type 0} → A → Type 0
Any a = Unit

abbrev ThenReads :
    {A B : Type 0} → (B → Type 0) → Conn → (A → Exec Conn B) → Result A × Conn → Type 0
ThenReads Q c f (r, c') = Reads Q c (continue r f c')

module _ {A B : Type 0} (P : A → Type 0) (Q : B → Type 0) where
  Reads-continue :
      (r : Result A × Conn) (f : A → Exec Conn B) (c : Conn)
      → Reads P c r
      → ((a : A) → P a → (c' : Conn) → Reads Q c' (f a c'))
      → ThenReads Q c f r
  Reads-continue (ok a, c') f c h rest = go (f a c') (rest a h.2 c')
    where
      go : (s : Result B × Conn) → Reads Q c' s → Reads Q c s
      go (ok b, d) w = (w.0 ∙ h.0, w.1 ∙ h.1, w.2)
      go (err e, d) w = (w.0 ∙ h.0, w.1 ∙ h.1, tt)
  Reads-continue (err e, c') f c h rest = h

module _ (env : Env) where
  Reads-query :
      {A : Type 0} (Q : A → Type 0) (f : Db → A) (c : Conn) → Q (f c.db) → Reads Q c (query env f c)
  unfolding execute
  Reads-query Q f c h = elim (Option-cases (env.fault c.step)) [
    | inl fine ↦ rw fine (refl, refl, h)
    | inr (e, failed) ↦ rw failed (refl, refl, tt)
  ]

  Reads-with_summaries :
      (ids : List ℕ) (facts : List FactInfo) (c : Conn)
      → Reads Any c (with_summaries env ids facts c)
  unfolding with_summaries
  Reads-with_summaries ids [] c = (refl, refl, tt)
  Reads-with_summaries ids (f ∷ fs) c =
      Reads-continue Any Any _ _ c (Reads-query Any _ c tt) (λ rows _ c'. (refl, refl, tt))

  Reads-get_facts_by_ids : (ids : List ℕ) (c : Conn) → Reads Any c (get_facts_by_ids env ids c)
  unfolding get_facts_by_ids
  Reads-get_facts_by_ids [] c = (refl, refl, tt)
  Reads-get_facts_by_ids (i ∷ ids) c =
      Reads-continue Any Any _ _ c (Reads-query Any _ c tt)
        (λ facts _ c'. Reads-with_summaries (i ∷ ids) facts c')

  module _ {F : Type 0} (fl : Floats F) (ranking : Ranking F) (limit : ℕ) where
    abbrev Few : List (FactSearchResult F ℕ Summary) → Type 0
    Few facts = length facts ≤ limit

    Reads-search_similar :
        (similar : List (ℕ × F)) (q : Option String) (c : Conn)
        → Reads Few c (search_similar env fl ranking similar limit q c)
    unfolding search_similar
    Reads-search_similar [] q c = (refl, refl, omega arith)
    Reads-search_similar (x ∷ similar) q c =
        Reads-continue Any Few _ _ c (Reads-get_facts_by_ids (map index (x ∷ similar)) c)
          (λ facts _ c'. (refl, refl, length-search_pool fl ranking _ limit q))

    Reads-search_rows :
        (rows : List (ℕ × List ℕ)) (query_embedding : List ℕ) (q : Option String) (c : Conn)
        → Reads Few c (search_rows env fl ranking rows query_embedding limit q c)
    unfolding search_rows
    Reads-search_rows [] query_embedding q c = (refl, refl, omega arith)
    Reads-search_rows (r ∷ rows) query_embedding q c = Reads-search_similar _ q c

    Reads-search_entity_facts :
        (entity_id : ℕ) (query_embedding : List ℕ) (embeddings_limit : ℕ) (q : Option String)
        (c : Conn)
        → Reads Few c (
            search_entity_facts env fl ranking entity_id query_embedding limit embeddings_limit q c)
    unfolding search_entity_facts get_embeddings
    Reads-search_entity_facts entity_id query_embedding embeddings_limit q c =
        Reads-continue Any Few _ _ c (Reads-query Any _ c tt)
          (λ rows _ c'. Reads-search_rows rows query_embedding (query_of q) c')

module _ {F : Type 0} (env : Env) (fl : Floats F) (ranking : Ranking F) (config : Config)
    (entity_id : ℕ) (query_embedding : List ℕ) (limit : ℕ) (q : Option String) where
  search_attempts-Reads :
      (k : ℕ) (c : Conn)
      → Reads
          (Few env fl ranking limit)
          c
          (search_attempts env fl ranking config entity_id query_embedding limit q k c)
  unfolding search_attempts
  search_attempts-Reads zero c = (refl, refl, omega arith)
  search_attempts-Reads (suc k) c =
      go
        (search_entity_facts env fl ranking entity_id query_embedding limit
          config.recall_embeddings_limit q c)
        (Reads-search_entity_facts env fl ranking limit entity_id query_embedding
          config.recall_embeddings_limit q c)
        (λ c'. search_attempts-Reads k c')
    where
      again :
          (c' : Conn) (r : Result (List (FactSearchResult F ℕ Summary)) × Conn)
          → c'.db ≡ c.db
          → c'.committed ≡ c.committed
          → Reads (Few env fl ranking limit) c' r
          → Reads (Few env fl ranking limit) c r
      again c' (ok facts, d) e e' w = (w.0 ∙ e, w.1 ∙ e', w.2)
      again c' (err x, d) e e' w = (w.0 ∙ e, w.1 ∙ e', tt)

      go :
          (r : Result (List (FactSearchResult F ℕ Summary)) × Conn)
          → Reads (Few env fl ranking limit) c r
          → ((c' : Conn)
              → Reads
                  (Few env fl ranking limit)
                  c'
                  (search_attempts env fl ranking config entity_id query_embedding limit q k c'))
          → Reads
              (Few env fl ranking limit)
              c
              (elim r.0 as (λ _. Result (List (FactSearchResult F ℕ Summary)) × Conn) [
                | ok facts ↦ (ok facts, r.1)
                | err e ↦
                    if is_retryable config e && ltb 0 k
                    then search_attempts env fl ranking config entity_id query_embedding limit q k
                        r.1
                    else (err e, r.1)
              ])
      go (ok facts, c') w rest = w
      go (err e, c') w rest = elim (Bool-cases (is_retryable config e && ltb 0 k)) [
        | inl retry ↦ rw retry (again c' _ w.0 w.1 (rest c'))
        | inr final ↦ rw final w
      ]

-- `_search_with_retries` changes neither the committed nor the open database, whatever fails and
-- however often it retries, and it returns at most `limit` facts if it returns.
pub search_with_retries-Reads :
    {F : Type 0} (env : Env) (fl : Floats F) (ranking : Ranking F) (config : Config) (entity_id : ℕ)
    (query_embedding : List ℕ) (limit : ℕ) (query_text : String) (c : Conn)
    → Reads
        (λ facts. length facts ≤ limit)
        c
        (search_with_retries env fl ranking config entity_id query_embedding limit query_text c)
unfolding search_with_retries
search_with_retries-Reads env fl ranking config entity_id query_embedding limit query_text c =
    search_attempts-Reads env fl ranking config entity_id query_embedding limit (some query_text) 3
      c
