-- ===== src/CloudRecall/Summaries.antt =====
-- memori/memory/recall.py: `_collect_cloud_summaries_from_facts`.
pub mod Distinct
pub mod Members
pub mod Contents
use memori.Prelude.{
  String, Bool, Option, none, some, List, [], ◌∷◌, ◌++◌, any, str_eq, if◌then◌else◌,
}
use memori.Json.{Json, text, object, Items, nil, cons, get}
use memori.CloudRecall.{Values, list_of, existing}

-- The summaries so far, and their keys.
pub record Collected : Type 0 where
  pub summaries : List Json
  pub seen : List String

module _ (py : Values) where
  abbrev pub key_in : Option Json → Option String
  key_in (some (text s)) = if str_eq (py.strip s) "" then none else some (py.strip s)
  key_in v = none

  -- `_content_key`
  abbrev pub content_key : Json → Option String
  content_key (object d) = key_in (get "content" d)
  content_key v = none

  abbrev pub has : String → List String → Bool
  has key seen = any (λ k. str_eq k key) seen

  abbrev pub collect_key : Json → Option String → Collected → Collected
  collect_key summary none c = c
  collect_key summary (some key) c =
      if has key c.seen
      then c
      else record { summaries = c.summaries ++ summary ∷ []; seen = key ∷ c.seen }

  unfoldable pub collect_from : Items → Collected → Collected
  collect_from nil c = c
  collect_from (cons s ss) c = collect_from ss (collect_key s (content_key s) c)

  -- `fact.get("summaries")` of a mapping, or the attribute of an object: a FactSearchResult is the
  -- dict of its fields here, and both branches do the same with what they read.
  abbrev pub summaries_in : Json → Items
  summaries_in (object d) = existing py (list_of (get "summaries" d))
  summaries_in v = nil

  unfoldable pub collect_all : List Json → Collected → Collected
  unfolding collect_from
  collect_all [] c = c
  collect_all (f ∷ facts) c = collect_all facts (collect_from (summaries_in f) c)

  -- `_collect_cloud_summaries_from_facts`
  unfoldable pub collect_cloud_summaries_from_facts : List Json → List Json
  unfolding collect_all
  collect_cloud_summaries_from_facts facts =
      (collect_all facts (record { summaries = []; seen = [] })).summaries
