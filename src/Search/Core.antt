-- ===== src/Search/Core.antt =====
-- memori/search/_core.py
use Prim.Native.Nat.{min, max}
use memori.Prelude.{
  ℕ, suc, ◌*◌, String, Bool, Option, none, some, List, [], ◌∷◌, map, take, length, ◌==◌, str_eq,
  if◌then◌else◌,
}
use memori.Prelude.Sort.{sort}
use memori.Exec.{Exec, pure, ◌>>=◌}
use memori.Conn.{Env, Conn}
use memori.Search.{Floats, Ranking, FactCandidate, FactSearchResult}
use memori.Sqlite.EntityFact.{FactInfo, Summary, get_embeddings, get_facts_by_ids}

-- `d.get(k)` of a dict made of these pairs, of which the last wins.
abbrev pub or_else {ℓ} : {V : Type ℓ} → Option V → Option V → Option V
or_else none o = o
or_else (some v) o = some v

abbrev pub lookup {ℓ} : {V : Type ℓ} → ℕ → List (ℕ × V) → Option V
lookup k [] = none
lookup k ((j, v) ∷ m) = or_else (lookup k m) (if j == k then some v else none)

-- `d.get(k, v)`
abbrev pub get_or {ℓ} : {V : Type ℓ} → Option V → V → V
get_or none v = v
get_or (some w) v = w

-- A query text that is not `None` or empty.
abbrev pub query_of : Option String → Option String
query_of none = none
query_of (some q) = if str_eq q "" then none else some q

-- What the maps say of a fact: the columns that `_build_fact_rows` reads. The summaries are lists
-- of dicts with text keys, which `_normalize_fact_summaries` copies.
pub record FactColumns (D S : Type 0) : Type 0 where
  pub date_created : Option D
  pub summaries : List S

pub record Pool (F D S : Type 0) : Type 0 where
  pub candidate_ids : List ℕ
  pub similarities_map : List (ℕ × F)
  pub content_map : List (ℕ × String)
  pub fact_rows : List (ℕ × FactColumns D S)

-- `_candidate_limit`
unfoldable pub candidate_limit : ℕ → ℕ → Option String → ℕ
candidate_limit limit total none = limit
candidate_limit limit total (some q) = max limit (min total (max (limit * 10) 50))

abbrev pub enumerate {ℓ} : {A : Type ℓ} → ℕ → List A → List (ℕ × A)
enumerate i [] = []
enumerate i (x ∷ xs) = (i, x) ∷ enumerate (suc i) xs

abbrev pub index : {A : Type 0} → ℕ × A → ℕ
index (i, _) = i

module _ {F : Type 0} (fl : Floats F) where
  abbrev pub similarity_of : List (ℕ × F) → ℕ → F
  similarity_of m i = get_or (lookup i m) fl.zero

  -- `sorted(…, key=…, reverse=True)` keeps the order of equal keys
  abbrev pub more_similar : List (ℕ × F) → ℕ → ℕ → Bool
  more_similar m i j = fl.lt (similarity_of m j) (similarity_of m i)

  -- The scores of `_rank_candidates`.
  abbrev pub rank_score : F × F → List (ℕ × F) → List (ℕ × F) → ℕ → F
  rank_score (w_cos, w_lex) sims lex i =
      fl.add (fl.mul w_cos (similarity_of sims i)) (fl.mul w_lex (similarity_of lex i))

  -- The pair of a fact's two scores is greater: `key` compared in reverse.
  abbrev pub ranks_before : List (ℕ × F) → List (ℕ × F) → ℕ → ℕ → Bool
  ranks_before ranks sims i j =
      if fl.eq (similarity_of ranks j) (similarity_of ranks i)
      then fl.lt (similarity_of sims j) (similarity_of sims i)
      else fl.lt (similarity_of ranks j) (similarity_of ranks i)

  -- `_rank_candidates`: the order and the map of rank scores
  unfoldable pub rank_candidates :
      Ranking F → List ℕ → List (ℕ × F) → Option String → List (ℕ × String) → List ℕ × List (ℕ × F)
  rank_candidates ranking ids sims none contents = (ids, map (λ i. (i, similarity_of sims i)) ids)
  rank_candidates ranking ids sims (some q) contents =
      let lex = ranking.lexical_scores_for_ids q ids contents in
      let weights = ranking.dense_lexical_weights q in
      let ranks = map (λ i. (i, rank_score weights sims lex i)) ids in
      (sort (ranks_before ranks sims) ids, ranks)

abbrev pub columns_or : {D S : Type 0} → Option (FactColumns D S) → FactColumns D S
columns_or none = record { date_created = none; summaries = [] }
columns_or (some c) = c

module _ {F D S : Type 0} where
  abbrev pub to_score : ℕ × FactCandidate F D S → ℕ × F
  to_score (i, c) = (i, c.score)

  abbrev pub to_content : ℕ × FactCandidate F D S → ℕ × String
  to_content (i, c) = (i, c.content)

  abbrev pub to_columns : ℕ × FactCandidate F D S → ℕ × FactColumns D S
  to_columns (i, c) = (i, record { date_created = c.date_created; summaries = c.summaries })

  abbrev pub to_id : ℕ × FactCandidate F D S → ℕ × ℕ
  to_id (i, c) = (i, c.id)

  -- `_candidate_pool_from_candidates`; the columns of the candidates that the limit cuts off are
  -- kept here, and never looked up
  unfoldable pub candidate_pool_from_candidates :
      Floats F → List (FactCandidate F D S) → ℕ → Option String → Pool F D S
  candidate_pool_from_candidates fl candidates limit query_text =
      let indexed = enumerate 0 candidates in
      let scores = map to_score indexed in
      record {
        candidate_ids =
            take (candidate_limit limit (length candidates) query_text)
              (sort (more_similar fl scores) (map index indexed));
        similarities_map = scores;
        content_map = map to_content indexed;
        fact_rows = map to_columns indexed;
      }

  abbrev pub add_result :
      Option (FactSearchResult F D S)
      → List (FactSearchResult F D S)
      → List (FactSearchResult F D S)
  add_result none rs = rs
  add_result (some r) rs = r ∷ rs

  -- The body of the loop: `continue` where the content is missing.
  abbrev pub to_result :
      Floats F
      → List (ℕ × FactColumns D S)
      → List (ℕ × F)
      → List (ℕ × F)
      → ℕ
      → Option String
      → Option (FactSearchResult F D S)
  to_result fl rows sims ranks i none = none
  to_result fl rows sims ranks i (some content) = some (record {
    id = i;
    content = content;
    similarity = similarity_of fl sims i;
    rank_score = get_or (lookup i ranks) (similarity_of fl sims i);
    date_created = (columns_or (lookup i rows)).date_created;
    summaries = (columns_or (lookup i rows)).summaries;
  })

  -- `_build_fact_rows`
  unfoldable pub build_fact_rows :
      Floats F
      → List (ℕ × FactColumns D S)
      → List (ℕ × String)
      → List (ℕ × F)
      → List (ℕ × F)
      → List ℕ
      → List (FactSearchResult F D S)
  build_fact_rows fl rows contents sims ranks [] = []
  build_fact_rows fl rows contents sims ranks (i ∷ ids) =
      add_result (to_result fl rows sims ranks i (lookup i contents))
        (build_fact_rows fl rows contents sims ranks ids)

  -- What both paths do with a pool.
  unfoldable pub search_pool :
      Floats F → Ranking F → Pool F D S → ℕ → Option String → List (FactSearchResult F D S)
  unfolding build_fact_rows
  search_pool fl ranking pool limit query_text =
      let (order, ranks) =
        rank_candidates fl ranking pool.candidate_ids pool.similarities_map query_text
          pool.content_map in
      build_fact_rows fl pool.fact_rows pool.content_map pool.similarities_map ranks
        (take limit order)

  -- `idx_to_original_id[rid]`, where it is there
  abbrev pub remap : List (ℕ × ℕ) → FactSearchResult F D S → FactSearchResult F D S
  remap ids r = record r { id = get_or (lookup r.id ids) r.id }

  -- `search_entity_facts_core` with `fact_candidates`
  unfoldable pub search_candidates :
      Floats F
      → Ranking F
      → List (FactCandidate F D S)
      → ℕ
      → Option String
      → List (FactSearchResult F D S)
  search_candidates fl ranking candidates limit query_text =
      map (remap (map to_id (enumerate 0 candidates))) (
        search_pool fl ranking
          (candidate_pool_from_candidates fl candidates limit (query_of query_text)) limit
          (query_of query_text))

-- `_fetch_content_maps`, of the rows of the SQLite driver, all of which have an id and a content
abbrev pub info_columns : FactInfo → ℕ × FactColumns ℕ Summary
info_columns f = (f.id, record { date_created = some f.date_created; summaries = f.summaries })

abbrev pub info_content : FactInfo → ℕ × String
info_content f = (f.id, f.content)

module _ {F : Type 0} (env : Env) (fl : Floats F) (ranking : Ranking F) where
  -- From the similar embeddings on.
  unfoldable pub search_similar :
      List (ℕ × F) → ℕ → Option String → Exec Conn (List (FactSearchResult F ℕ Summary))
  search_similar [] limit query_text = pure []
  search_similar (x ∷ similar) limit query_text = do
    facts ← get_facts_by_ids env (map index (x ∷ similar))
    pure (
        search_pool fl ranking
          (record {
            candidate_ids = map index (x ∷ similar);
            similarities_map = x ∷ similar;
            content_map = map info_content facts;
            fact_rows = map info_columns facts;
          })
          limit query_text)

  unfoldable pub search_rows :
      List (ℕ × List ℕ)
      → List ℕ
      → ℕ
      → Option String
      → Exec Conn (List (FactSearchResult F ℕ Summary))
  search_rows [] query_embedding limit query_text = pure []
  search_rows (r ∷ rows) query_embedding limit query_text =
      search_similar
        (ranking.find_similar_embeddings (r ∷ rows) query_embedding
          (candidate_limit limit (length (r ∷ rows)) query_text))
        limit query_text

  -- `search_entity_facts_core` without `fact_candidates`
  unfoldable pub search_entity_facts :
      ℕ → List ℕ → ℕ → ℕ → Option String → Exec Conn (List (FactSearchResult F ℕ Summary))
  search_entity_facts entity_id query_embedding limit embeddings_limit query_text = do
    rows ← get_embeddings env entity_id embeddings_limit
    search_rows rows query_embedding limit (query_of query_text)
