-- ===== src/Tests/Search.antt =====
-- Runs of the ranking.
use memori.Prelude.{ℕ, String, refl, none, List, [], ◌∷◌, arith, ltb}
use memori.Prelude.Sort.{Ordered, IsWeakOrder}
use memori.Search.{FactCandidate}
use memori.Search.Core.{search_candidates}
use memori.Search.Bounds.{closer, search_candidates-Ordered}
use memori.Tests.{floats, ranking}

ltb-IsWeakOrder : IsWeakOrder ltb
ltb-IsWeakOrder = record { asym = λ a b h. ground arith; neg_trans = λ a b c h k. ground arith }

abbrev candidate : ℕ → ℕ → FactCandidate ℕ ℕ String
candidate i s = record { id = i; content = "c"; score = s; date_created = none; summaries = [] }

abbrev candidates : List (FactCandidate ℕ ℕ String)
candidates = candidate 10 2 ∷ candidate 11 9 ∷ candidate 12 5 ∷ []

search_candidates-Ordered_example :
    Ordered (closer floats) (search_candidates floats ranking candidates 2 none)
search_candidates-Ordered_example =
    search_candidates-Ordered floats ranking candidates 2 none ltb-IsWeakOrder refl
