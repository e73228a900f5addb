-- ===== src/CloudRecall.antt =====
-- memori/memory/recall.py: what is made of an answer of the cloud's recall service. `json.loads` gives
-- dicts whose keys are texts, so `_is_str_object_mapping` is the test for a dict. A fact is a text or
-- a dict here; objects of FactSearchResult come from the local store only.
pub mod Attached
pub mod Parsed
pub mod Summaries
use memori.Prelude.{
  ℕ, String, Bool, true, false, Option, none, some, List, [], ◌∷◌, filter, if◌then◌else◌,
}
use memori.Exec.{Exc, other, Result, ok, err}
use memori.Json.{
  Json, null, boolean, number, text, array, object, Items, nil, cons, Fields, end, field, items,
  get, put,
}

-- Floats and Python's conversions: `float(v)`, `none` where it raises; `a >= b`; `a == b` of two keys
-- of a dict; `s.strip()`.
pub record Values : Type 0 where
  pub float_of : Json → Option ℕ
  pub one : ℕ
  pub zero_float : ℕ
  pub at_least : ℕ → ℕ → Bool
  pub same_key : Json → Json → Bool
  pub strip : String → String

-- A value that is there and not `None`.
abbrev pub not_null : Option Json → Option Json
not_null none = none
not_null (some null) = none
not_null (some v) = some v

abbrev pub first : Option Json → Option Json → Option Json
first none v = v
first (some u) v = some u

-- class CloudRecallResponse: `none` for a missing `messages`; a message is its role and its content.
pub record CloudRecallResponse : Type 0 where
  pub facts : List Json
  pub messages : Option (List (String × String))

-- `isinstance(v, list)`
abbrev pub list_of : Option Json → Option Items
list_of (some (array xs)) = some xs
list_of v = none

-- `_collect_cloud_summary_items`
unfoldable pub collect_cloud_summary_items : Items → Items
collect_cloud_summary_items nil = nil
collect_cloud_summary_items (cons (object d) xs) = cons (object d) (collect_cloud_summary_items xs)
collect_cloud_summary_items (cons v xs) = collect_cloud_summary_items xs

abbrev pub clean_summaries : Fields → Option Items → Fields
clean_summaries d none = d
clean_summaries d (some xs) = put "summaries" (array (collect_cloud_summary_items xs)) d

unfoldable pub normalize_cloud_fact : Json → Option Json
unfolding collect_cloud_summary_items
normalize_cloud_fact (text s) = some (text s)
normalize_cloud_fact (object d) = some (object (clean_summaries d (list_of (get "summaries" d))))
normalize_cloud_fact v = none

abbrev pub add_fact : Option Json → List Json → List Json
add_fact none facts = facts
add_fact (some f) facts = f ∷ facts

-- `_collect_items`
unfoldable pub collect_items : Items → List Json
unfolding normalize_cloud_fact
collect_items nil = []
collect_items (cons x xs) = add_fact (normalize_cloud_fact x) (collect_items xs)

-- A list or a dict is no key.
abbrev pub is_hashable : Json → Bool
is_hashable (array xs) = false
is_hashable (object d) = false
is_hashable v = true

abbrev Groups : Type 0
Groups = List (Json × Items)

abbrev pub append_item : Items → Json → Items
append_item nil v = cons v nil
append_item (cons x xs) v = cons x (append_item xs v)

module _ (py : Values) where
  -- `setdefault(key, []).append(summary)`
  abbrev pub add_to : Json → Json → Groups → Groups
  add_to key summary [] = (key, cons summary nil) ∷ []
  add_to key summary ((k, xs) ∷ groups) =
      let rest = add_to key summary groups in
      if py.same_key k key then (k, append_item xs summary) ∷ groups else (k, xs) ∷ rest

  abbrev pub add_summary : Json → Option Json → Groups → Result Groups
  add_summary summary none groups = ok groups
  add_summary summary (some key) groups =
      if is_hashable key then ok (add_to key summary groups) else err other

  abbrev pub id_of : Json → Option Json
  id_of (object d) = first (not_null (get "entity_fact_id" d)) (not_null (get "fact_id" d))
  id_of v = none

  abbrev and_group : Result Groups → (Groups → Result Groups) → Result Groups
  and_group (ok groups) f = f groups
  and_group (err e) f = err e

  -- `summaries_by_fact_id`
  unfoldable pub group_summaries : Items → Groups → Result Groups
  group_summaries nil groups = ok groups
  group_summaries (cons s ss) groups =
      and_group (add_summary s (id_of s) groups) (group_summaries ss)

  abbrev pub matched : Json → Groups → Items
  matched key [] = nil
  matched key ((k, xs) ∷ groups) = if py.same_key k key then xs else matched key groups

  -- `matched_summaries`
  abbrev pub matched_by : Option Json → Groups → Result Items
  matched_by none groups = ok nil
  matched_by (some key) groups = if is_hashable key then ok (matched key groups) else err other

  abbrev pub extend_items : Items → Items → Items
  extend_items nil ys = ys
  extend_items (cons x xs) ys = cons x (extend_items xs ys)

  abbrev pub existing : Option Items → Items
  existing none = nil
  existing (some xs) = collect_cloud_summary_items xs

  -- `if existing_summaries or matched_summaries:`
  abbrev pub put_summaries : Fields → Items → Fields
  put_summaries d nil = d
  put_summaries d (cons x xs) = put "summaries" (array (cons x xs)) d

  abbrev attach_matched : Fields → Result Items → Result Json
  attach_matched d (ok ms) =
      ok (object (put_summaries d (extend_items (existing (list_of (get "summaries" d))) ms)))
  attach_matched d (err e) = err e

  abbrev pub attach_to : Groups → Json → Result Json
  attach_to groups (object d) = attach_matched d (matched_by (not_null (get "id" d)) groups)
  attach_to groups v = ok v

  abbrev and_fact : Result Json → Result (List Json) → Result (List Json)
  and_fact (ok f) (ok facts) = ok (f ∷ facts)
  and_fact (ok f) (err e) = err e
  and_fact (err e) facts = err e

  unfoldable pub attach_groups : Groups → List Json → Result (List Json)
  attach_groups groups [] = ok []
  attach_groups groups (f ∷ facts) = and_fact (attach_to groups f) (attach_groups groups facts)

  abbrev attach_if_any : List Json → Result Groups → Result (List Json)
  attach_if_any facts (err e) = err e
  attach_if_any facts (ok []) = ok facts
  attach_if_any facts (ok (g ∷ groups)) = attach_groups (g ∷ groups) facts

  -- `_attach_top_level_summaries_to_facts`; it raises at a key that cannot be hashed.
  unfoldable pub attach_top_level_summaries_to_facts : List Json → Items → Result (List Json)
  unfolding group_summaries attach_groups
  attach_top_level_summaries_to_facts facts summaries =
      attach_if_any facts (group_summaries summaries [])

  abbrev attach_some : List Json → Option Items → Result (List Json)
  attach_some facts none = ok facts
  attach_some facts (some xs) =
      attach_top_level_summaries_to_facts facts (collect_cloud_summary_items xs)

  -- `_extract_list`
  abbrev pub extract_list : List String → Fields → Option Items
  extract_list [] d = none
  extract_list (k ∷ keys) d = elim (list_of (get k d)) [
    | none ↦ extract_list keys d
    | some xs ↦ some xs
  ]

  abbrev pub or_nil : Option Items → Items
  or_nil none = nil
  or_nil (some xs) = xs

  abbrev pub facts_raw : Fields → Items
  facts_raw d = or_nil (extract_list ("facts" ∷ "results" ∷ "memories" ∷ "data" ∷ []) d)

  abbrev nested_messages : Option Json → Option Items
  nested_messages (some (object d)) = list_of (get "messages" d)
  nested_messages v = none

  abbrev pub or_nested : Option Items → Fields → Option Items
  or_nested none d = nested_messages (get "conversation" d)
  or_nested (some xs) d = some xs

  abbrev pub message_of : Option Json → Option Json → Option (String × String)
  message_of (some (text role)) (some (text content)) = some (role, content)
  message_of role content = none

  abbrev pub to_message : Json → Option (String × String)
  to_message (object d) =
      message_of (get "role" d) (first (not_null (get "content" d)) (get "text" d))
  to_message v = none

  abbrev add_message : Option (String × String) → List (String × String) → List (String × String)
  add_message none messages = messages
  add_message (some m) messages = m ∷ messages

  unfoldable pub collect_messages : Items → List (String × String)
  collect_messages nil = []
  collect_messages (cons x xs) = add_message (to_message x) (collect_messages xs)

  abbrev messages_of : Option Items → Option (List (String × String))
  messages_of none = none
  messages_of (some xs) = some (collect_messages xs)

  abbrev respond : Fields → Result (List Json) → Result CloudRecallResponse
  respond d (err e) = err e
  respond d (ok facts) = ok (record {
    facts = facts;
    messages =
        messages_of
          (or_nested (extract_list ("messages" ∷ "conversation_messages" ∷ "history" ∷ []) d) d);
  })

  unfoldable pub parse_cloud_recall_response : Json → Result CloudRecallResponse
  unfolding collect_items attach_top_level_summaries_to_facts collect_messages
  parse_cloud_recall_response (array xs) = ok (record { facts = collect_items xs; messages = none })
  parse_cloud_recall_response (object d) =
      respond d (attach_some (collect_items (facts_raw d)) (list_of (get "summaries" d)))
  parse_cloud_recall_response v = ok (record { facts = []; messages = none })

  abbrev or_zero : Option ℕ → ℕ
  or_zero none = py.zero_float
  or_zero (some x) = x

  abbrev score_of : Option Json → ℕ
  score_of none = py.zero_float
  score_of (some v) = or_zero (py.float_of v)

  -- `_score_for_recall_threshold`
  unfoldable pub score_for_recall_threshold : Json → ℕ
  score_for_recall_threshold (object d) =
      score_of (first (not_null (get "rank_score" d)) (not_null (get "similarity" d)))
  score_for_recall_threshold v = py.one

  abbrev pub is_relevant : ℕ → Json → Bool
  is_relevant threshold fact = py.at_least (score_for_recall_threshold fact) threshold

  -- `_filter_cloud_recall_response`
  unfoldable pub filter_cloud_recall_response : ℕ → CloudRecallResponse → CloudRecallResponse
  filter_cloud_recall_response threshold response = record response {
    facts = filter (is_relevant threshold) response.facts;
  }

  abbrev filter_result : ℕ → Result CloudRecallResponse → Result CloudRecallResponse
  filter_result threshold (ok response) = ok (filter_cloud_recall_response threshold response)
  filter_result threshold (err e) = err e

  -- `search_facts` with the cloud: `answer` is what the service gives for the configured entity.
  unfoldable pub search_cloud_facts : ℕ → Option String → Json → Result CloudRecallResponse
  unfolding parse_cloud_recall_response filter_cloud_recall_response
  search_cloud_facts threshold none answer = ok (record { facts = []; messages = none })
  search_cloud_facts threshold (some entity_id) answer =
      filter_result threshold (parse_cloud_recall_response answer)
