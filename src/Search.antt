-- ===== src/Search.antt =====
-- memori/search: the ranking of facts. Floats, the similarity search and the lexical scores are
-- outside: `Floats` has the operations on floats that the ranking uses, over any type.
pub mod Core
pub mod Bounds
use memori.Prelude.{ℕ, String, Bool, Option, List}

-- `0.0`, `+`, `*`, `<` and `==` of floats. An embedding is a list of bit patterns.
pub record Floats (F : Type 0) : Type 0 where
  pub zero : F
  pub add : F → F → F
  pub mul : F → F → F
  pub lt : F → F → Bool
  pub eq : F → F → Bool

-- What `search_entity_facts_core` is given beside the driver.
pub record Ranking (F : Type 0) : Type 0 where
  pub find_similar_embeddings : List (ℕ × List ℕ) → List ℕ → ℕ → List (ℕ × F)
  pub lexical_scores_for_ids : String → List ℕ → List (ℕ × String) → List (ℕ × F)
  pub dense_lexical_weights : String → F × F

-- memori/search/_types.py. `D` is the type of dates and `S` that of summaries; a `FactId` is a
-- number; the date `""` is `none`.
pub record FactCandidate (F D S : Type 0) : Type 0 where
  pub id : ℕ
  pub content : String
  pub score : F
  pub date_created : Option D
  pub summaries : List S

pub record FactSearchResult (F D S : Type 0) : Type 0 where
  pub id : ℕ
  pub content : String
  pub similarity : F
  pub rank_score : F
  pub date_created : Option D
  pub summaries : List S
