-- ===== src/CloudRecall/Parsed.antt =====
-- What a search with the cloud returns, whatever the service answers.
use memori.Prelude.{
  ℕ, String, ◌≡◌, true, Option, none, some, List, [], ◌∷◌, filter, All, Bool-cases, inl, inr,
}
use memori.Exec.{Result, ok, err}
use memori.Json.{Json, null, boolean, number, text, array, object, Fields, get}
use memori.CloudRecall.{
  Values, CloudRecallResponse, list_of, facts_raw, respond, filter_result, is_relevant,
  filter_cloud_recall_response, parse_cloud_recall_response, search_cloud_facts,
}
use memori.CloudRecall.Attached.{
  IsFact, AreFacts, FactsResult, collect_items-AreFacts, attach_some-AreFacts,
}

module _ (py : Values) where
  abbrev ResponseResult : Result CloudRecallResponse → Type 0
  ResponseResult (ok r) = AreFacts r.facts
  ResponseResult (err e) = Unit

  respond-AreFacts :
      (d : Fields) (r : Result (List Json)) → FactsResult py r → ResponseResult (respond py d r)
  respond-AreFacts d (ok facts) h = h
  respond-AreFacts d (err e) h = tt

  parse-AreFacts : (answer : Json) → ResponseResult (parse_cloud_recall_response py answer)
  unfolding parse_cloud_recall_response
  parse-AreFacts (array xs) = collect_items-AreFacts xs
  parse-AreFacts (object d) = respond-AreFacts d _ (
      attach_some-AreFacts py _ (list_of (get "summaries" d))
        (collect_items-AreFacts (facts_raw py d)))
  parse-AreFacts null = tt
  parse-AreFacts (boolean b) = tt
  parse-AreFacts (number n) = tt
  parse-AreFacts (text s) = tt

  -- The facts of a result, if it is one, are facts at or above the threshold.
  abbrev pub AreRelevant : ℕ → Result CloudRecallResponse → Type 0
  AreRelevant threshold (ok r) = All (λ f. IsFact f × (is_relevant py threshold f ≡ true)) r.facts
  AreRelevant threshold (err e) = Unit

  filter-AreRelevant :
      (threshold : ℕ) (facts : List Json)
      → AreFacts facts
      → All
          (λ f. IsFact f × (is_relevant py threshold f ≡ true))
          (filter (is_relevant py threshold) facts)
  filter-AreRelevant threshold [] h = tt
  filter-AreRelevant threshold (f ∷ facts) h = elim (Bool-cases (is_relevant py threshold f)) [
    | inl e ↦ rw e ((h.0, e), filter-AreRelevant threshold facts h.1)
    | inr e ↦ rw e (filter-AreRelevant threshold facts h.1)
  ]

  result-AreRelevant :
      (threshold : ℕ) (r : Result CloudRecallResponse)
      → ResponseResult r
      → AreRelevant threshold (filter_result py threshold r)
  unfolding filter_cloud_recall_response
  result-AreRelevant threshold (ok r) h = filter-AreRelevant threshold r.facts h
  result-AreRelevant threshold (err e) h = tt

-- Whatever the service answers, a search with the cloud that returns has only facts that are texts,
-- or dicts whose list of summaries, if there is one, has only dicts, and whose score is at or above
-- the threshold.
pub search_cloud_facts-AreRelevant :
    (py : Values) (threshold : ℕ) (entity_id : Option String) (answer : Json)
    → AreRelevant py threshold (search_cloud_facts py threshold entity_id answer)
unfolding search_cloud_facts
search_cloud_facts-AreRelevant py threshold none answer = tt
search_cloud_facts-AreRelevant py threshold (some x) answer =
    result-AreRelevant py threshold _ (parse-AreFacts py answer)
