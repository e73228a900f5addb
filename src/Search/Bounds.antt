-- ===== src/Search/Bounds.antt =====
-- What `search_entity_facts_core` returns for given candidates: how many, and in which order.
use memori.Prelude.{
  ℕ, suc, ◌≤◌, String, ◌≡◌, refl, ap, Bool, false, Option, none, some, List, [], ◌∷◌, map, take,
  length, arith, All,
}
use memori.Prelude.Sort.{Ordered, IsWeakOrder, sort, sort-Ordered, Ordered-take, length-take_le}
use memori.Search.{Floats, Ranking, FactCandidate, FactSearchResult}
use memori.Search.Core.{
  FactColumns, Pool, similarity_of, more_similar, rank_candidates, candidate_pool_from_candidates,
  candidate_limit, enumerate, index, to_score, to_id, add_result, to_result, build_fact_rows,
  search_pool, remap, search_candidates, query_of, lookup,
}

length-map {ℓ} : {A B : Type ℓ} (f : A → B) (l : List A) → length (map f l) ≡ length l
length-map f [] = refl
length-map f (x ∷ l) = ap suc (length-map f l)

more_similar-IsWeakOrder :
    {F : Type 0} (fl : Floats F) (sims : List (ℕ × F))
    → IsWeakOrder fl.lt
    → IsWeakOrder (more_similar fl sims)
more_similar-IsWeakOrder fl sims weak = record {
  asym = λ a b h. weak.asym (similarity_of fl sims b) (similarity_of fl sims a) h;
  neg_trans = λ a b c h k.
      weak.neg_trans (similarity_of fl sims c) (similarity_of fl sims b) (similarity_of fl sims a) k
        h;
}

module _ {F D S : Type 0} (fl : Floats F) where
  -- A result that must stand in front of another: it is more similar.
  abbrev pub closer : FactSearchResult F D S → FactSearchResult F D S → Bool
  closer r s = fl.lt s.similarity r.similarity

  length-add_result :
      (o : Option (FactSearchResult F D S)) (rs : List (FactSearchResult F D S))
      → length (add_result o rs) ≤ suc (length rs)
  length-add_result none rs = omega arith
  length-add_result (some r) rs = omega arith

  module _ (rows : List (ℕ × FactColumns D S)) (contents : List (ℕ × String))
      (sims ranks : List (ℕ × F)) where
    length-build_fact_rows :
        (ids : List ℕ) → length (build_fact_rows fl rows contents sims ranks ids) ≤ length ids
    unfolding build_fact_rows
    length-build_fact_rows [] = omega arith
    length-build_fact_rows (i ∷ ids) = omega (
      arith,
      length-build_fact_rows ids,
      length-add_result (to_result fl rows sims ranks i (lookup i contents))
          (build_fact_rows fl rows contents sims ranks ids),
    )

    -- A result of the id `i` has the similarity of `i`.
    All-build_fact_rows :
        (f : F) (ids : List ℕ)
        → All (λ j. fl.lt f (similarity_of fl sims j) ≡ false) ids
        → All (λ r. fl.lt f r.similarity ≡ false) (build_fact_rows fl rows contents sims ranks ids)
    unfolding build_fact_rows
    All-build_fact_rows f [] a = tt
    All-build_fact_rows f (i ∷ ids) a = go (lookup i contents) (All-build_fact_rows f ids a.1)
      where
        go :
            (o : Option String)
            → All
                (λ r. fl.lt f r.similarity ≡ false)
                (build_fact_rows fl rows contents sims ranks ids)
            → All
                (λ r. fl.lt f r.similarity ≡ false)
                (add_result
                  (to_result fl rows sims ranks i o)
                  (build_fact_rows fl rows contents sims ranks ids))
        go none w = w
        go (some c) w = (a.0, w)

    Ordered-add_result :
        (i : ℕ) (o : Option String) (rs : List (FactSearchResult F D S))
        → All (λ r. fl.lt (similarity_of fl sims i) r.similarity ≡ false) rs
        → Ordered closer rs
        → Ordered closer (add_result (to_result fl rows sims ranks i o) rs)
    Ordered-add_result i none rs a o = o
    Ordered-add_result i (some c) rs a o = (a, o)

    Ordered-build_fact_rows :
        (ids : List ℕ)
        → Ordered (more_similar fl sims) ids
        → Ordered closer (build_fact_rows fl rows contents sims ranks ids)
    unfolding build_fact_rows
    Ordered-build_fact_rows [] o = tt
    Ordered-build_fact_rows (i ∷ ids) o =
        Ordered-add_result i (lookup i contents) (build_fact_rows fl rows contents sims ranks ids)
          (All-build_fact_rows (similarity_of fl sims i) ids o.0) (Ordered-build_fact_rows ids o.1)

  All-remap :
      (ids : List (ℕ × ℕ)) (f : F) (rs : List (FactSearchResult F D S))
      → All (λ r. fl.lt f r.similarity ≡ false) rs
      → All (λ r. fl.lt f r.similarity ≡ false) (map (remap ids) rs)
  All-remap ids f [] a = tt
  All-remap ids f (r ∷ rs) a = (a.0, All-remap ids f rs a.1)

  Ordered-remap :
      (ids : List (ℕ × ℕ)) (rs : List (FactSearchResult F D S))
      → Ordered closer rs
      → Ordered closer (map (remap ids) rs)
  Ordered-remap ids [] o = tt
  Ordered-remap ids (r ∷ rs) o = (All-remap ids r.similarity rs o.0, Ordered-remap ids rs o.1)

  module _ (ranking : Ranking F) where
    pub length-search_pool :
        (pool : Pool F D S) (limit : ℕ) (query_text : Option String)
        → length (search_pool fl ranking pool limit query_text) ≤ limit
    unfolding search_pool
    length-search_pool pool limit query_text =
        let order =
          (rank_candidates fl ranking pool.candidate_ids pool.similarities_map query_text
            pool.content_map).0 in
        omega (
          arith,
          length-take_le limit order,
          length-build_fact_rows pool.fact_rows pool.content_map pool.similarities_map
              (rank_candidates fl ranking pool.candidate_ids pool.similarities_map query_text
                pool.content_map).1
              (take limit order),
        )

    -- `search_entity_facts_core` with given candidates returns at most `limit` results, with a
    -- query or without.
    pub length-search_candidates :
        (candidates : List (FactCandidate F D S)) (limit : ℕ) (query_text : Option String)
        → length (search_candidates fl ranking candidates limit query_text) ≤ limit
    unfolding search_candidates
    length-search_candidates candidates limit query_text =
        rw (length-map (remap (map to_id (enumerate 0 candidates)))) (
          length-search_pool
            (candidate_pool_from_candidates fl candidates limit (query_of query_text)) limit
            (query_of query_text))

    -- Where `<` on floats is a strict weak order (no NaN), the results without a query text are in
    -- descending order of similarity.
    pub search_candidates-Ordered :
        (candidates : List (FactCandidate F D S)) (limit : ℕ) (query_text : Option String)
        → IsWeakOrder fl.lt
        → query_of query_text ≡ none
        → Ordered closer (search_candidates fl ranking candidates limit query_text)
    unfolding search_candidates search_pool rank_candidates candidate_pool_from_candidates
    search_candidates-Ordered candidates limit query_text weak no_query =
        let sims = map to_score (enumerate 0 candidates) in
        let pool = candidate_pool_from_candidates fl candidates limit none in
        let ids = sort (more_similar fl sims) (map index (enumerate 0 candidates)) in
        rw no_query (
          Ordered-remap (map to_id (enumerate 0 candidates)) _ (
            Ordered-build_fact_rows pool.fact_rows pool.content_map sims
              (map (λ i. (i, similarity_of fl sims i)) pool.candidate_ids) _
              (Ordered-take (more_similar fl sims) limit _ (
                Ordered-take (more_similar fl sims) (candidate_limit limit (length candidates) none)
                  ids
                  (sort-Ordered (more_similar fl sims) (more_similar-IsWeakOrder fl sims weak)
                    (map index (enumerate 0 candidates)))))))
