-- ===== src/Llm/RecallInjection.antt =====
-- memori/llm/pipelines/recall_injection.py: the facts that are recalled for a request, and the text
-- that is made of them. A FactSearchResult is the dict of its fields.
pub mod Placed
pub mod Asks
pub mod Asked
pub mod Kept
use Prim.Native.String.{◌++◌ as concat}
use memori.Prelude.{
  String, Bool, true, false, Option, none, some, List, [], ◌∷◌, ◌++◌, filter, str_eq, ℕ,
  if◌then◌else◌,
}
use memori.Exec.{Exc, Exec, Result, ok, err, pure, raise, ◌>>=◌, ◌>>◌}
use memori.Conn.{Env, Conn}
use memori.Json.{Json, text, object, Items, Fields, get}
use memori.Struct.{present}
use memori.Embeddings.{drop}
use memori.Memory.Config.{Config}
use memori.Sqlite.Entity
use memori.CloudRecall as CloudRecall
use memori.CloudRecall.{CloudRecallResponse, is_relevant}
use memori.CloudRecall.Summaries.{collect_cloud_summaries_from_facts, has}
use memori.Native.Values as Native
use memori.Native.Values.{given}
use memori.Llm.{Client}
use memori.Llm.UserQuery.{entries_of, extract_user_query}
use memori.Llm.RecallInjection.Placed.{place_context}

-- Python's conversions; `date` is `format_date_created`.
pub record Formats : Type 0 where
  pub cloud : CloudRecall.Values
  pub native : Native.Values
  pub date : Option Json → Option String

abbrev pub newline : String
newline = "\n"

-- `"\n".join(lines)`, with the given separator
abbrev pub join : String → List String → String
join sep [] = ""
join sep (l ∷ []) = l
join sep (l ∷ m ∷ lines) = concat l (concat sep (join sep (m ∷ lines)))

module _ (py : Formats) where
  abbrev add_line : Option String → List String → List String
  add_line none lines = lines
  add_line (some l) lines = l ∷ lines

  abbrev stated : Option String → String
  stated none = ""
  stated (some ts) = concat ". Stated at " ts

  abbrev content_line : Option String → Option String → Option String
  content_line none ts = none
  content_line (some content) ts = some (concat "- " (concat content (stated ts)))

  abbrev fact_line : Json → Option String
  fact_line (text s) = if str_eq s "" then none else some (concat "- " s)
  fact_line (object d) =
      content_line (given py.native (get "content" d)) (present (py.date (get "date_created" d)))
  fact_line v = none

  unfoldable pub format_recalled_fact_lines : List Json → List String
  format_recalled_fact_lines [] = []
  format_recalled_fact_lines (f ∷ facts) = add_line (fact_line f) (format_recalled_fact_lines facts)

  -- A summary with a content, as its content and its date.
  abbrev summary_in : Option Json → Option Json → Option (String × Option Json)
  summary_in (some (text s)) date = if str_eq (py.cloud.strip s) "" then none else some (s, date)
  summary_in v date = none

  abbrev add_summary :
      Option (String × Option Json) → List (String × Option Json) → List (String × Option Json)
  add_summary none summaries = summaries
  add_summary (some x) summaries = x ∷ summaries

  abbrev summaries_of : List Json → List (String × Option Json)
  summaries_of [] = []
  summaries_of (object d ∷ raw) =
      add_summary (summary_in (get "content" d) (get "date_created" d)) (summaries_of raw)
  summaries_of (v ∷ raw) = summaries_of raw

  -- `fact.get("summaries")`
  abbrev fact_summaries : Json → List (String × Option Json)
  fact_summaries (object d) = summaries_of (entries_of (get "summaries" d))
  fact_summaries v = []

  abbrev first_of : List (String × Option Json) → List (String × Option Json)
  first_of [] = []
  first_of (x ∷ summaries) = x ∷ []

  abbrev primary_summaries : List Json → List (String × Option Json)
  primary_summaries [] = []
  primary_summaries (f ∷ facts) = first_of (fact_summaries f) ++ primary_summaries facts

  abbrev additional_summaries : List Json → List (String × Option Json)
  additional_summaries [] = []
  additional_summaries (f ∷ facts) = drop 1 (fact_summaries f) ++ additional_summaries facts

  abbrev dated : Option String → String → String
  dated none content = concat "- " content
  dated (some ts) content = concat "- [" (concat ts (concat "]\n  " content))

  -- The lines of the summaries whose key was not seen before.
  abbrev summary_lines : List String → List (String × Option Json) → List String
  summary_lines seen [] = []
  summary_lines seen ((content, date) ∷ summaries) =
      let key = py.cloud.strip content in
      let skipped = summary_lines seen summaries in
      let added = summary_lines (key ∷ seen) summaries in
      if has py.cloud key seen then skipped else dated (present (py.date date)) content ∷ added

  unfoldable pub format_recalled_summary_lines : List Json → List String
  format_recalled_summary_lines facts =
      summary_lines [] (primary_summaries facts ++ additional_summaries facts)

  abbrev with_summaries : List String → String → String
  with_summaries [] body = body
  with_summaries (l ∷ lines) body =
      concat body (concat "\n\n## Summaries\n\n" (join "\n\n" (l ∷ lines)))

  -- `recall_context.lstrip("\n")`
  unfoldable pub recall_context : List Json → String
  unfolding format_recalled_fact_lines format_recalled_summary_lines
  recall_context facts =
      concat
        "<memori_context>\nOnly use the relevant context if it is relevant to the user's query. "
        (concat
          (with_summaries (format_recalled_summary_lines facts) (
            concat "Relevant context about the user:\n"
              (join newline (format_recalled_fact_lines facts))))
          "\n</memori_context>")

-- class BaseInvoke: what the injection writes, with the connection
pub record Invoke : Type 0 where
  pub conn : Conn
  pub cloud_conversation_messages : List (String × String)
  pub cloud_summaries : List Json

-- What a search for a query gives: from the cloud, and from the store's own facts for an entity.
-- The latter is the engine's `retrieve_facts` or `Recall.search_facts`, as Memory/Recall has it.
pub record Sources : Type 0 where
  pub cloud_answer : String → Result Json
  pub retrieve_facts : String → ℕ → Exec Conn (List Json)

abbrev pub lifted : {A : Type 0} → Result A → Exec Invoke A
lifted (ok a) = pure a
lifted (err e) = raise e

abbrev on_conn : {A : Type 0} → Exec Conn A → Exec Invoke A
on_conn m s = let (r, conn') = m s.conn in (r, record s { conn = conn' })

abbrev or_no_messages : Option (List (String × String)) → List (String × String)
or_no_messages none = []
or_no_messages (some messages) = messages

abbrev set_messages : List (String × String) → Exec Invoke (Unit {0})
set_messages messages s = (ok tt, record s { cloud_conversation_messages = messages })

module _ (py : Formats) (env : Env) (config : Config) (threshold : ℕ) (sources : Sources)
    (client : Client) where
  abbrev pub set_summaries : List Json → Exec Invoke (Unit {0})
  set_summaries facts s =
      (ok tt, record s { cloud_summaries = collect_cloud_summaries_from_facts py.cloud facts })

  -- What an earlier request left is dropped.
  abbrev pub reset : Exec Invoke (Unit {0})
  reset s = (if config.cloud then set_messages [] else pure tt) (record s { cloud_summaries = [] })

  abbrev answered : Result Json → Result CloudRecallResponse
  answered (err e) = err e
  answered (ok answer) = CloudRecall.search_cloud_facts py.cloud threshold config.entity_id answer

  abbrev pub recall_cloud : String → Exec Invoke (List Json)
  recall_cloud query = do
    response ← lifted (answered (sources.cloud_answer query))
    set_messages (or_no_messages response.messages)
    set_summaries response.facts
    pure response.facts

  abbrev pub recall_local : String → String → Exec Invoke (List Json)
  recall_local entity_id query = do
    resolved_entity_id ← on_conn (Entity.create env entity_id)
    facts ← on_conn (sources.retrieve_facts query resolved_entity_id)
    set_summaries facts
    pure facts

  -- `if not relevant_facts: return kwargs`
  abbrev pub inject_relevant : Fields → List Json → Exec Invoke Fields
  inject_relevant kwargs [] = pure kwargs
  inject_relevant kwargs (f ∷ facts) = do
    set_summaries (f ∷ facts)
    lifted (place_context py.native (recall_context py (f ∷ facts)) client kwargs)

  abbrev pub inject_facts : Fields → List Json → Exec Invoke Fields
  inject_facts kwargs facts = inject_relevant kwargs (filter (is_relevant py.cloud threshold) facts)

  -- The driver creates an entity or raises, so the test that its id is not `None` passes.
  abbrev pub inject_for : Fields → String → String → Exec Invoke Fields
  inject_for kwargs entity_id query =
      if config.cloud
      then recall_cloud query >>= inject_facts kwargs
      else if config.has_storage
      then recall_local entity_id query >>= inject_facts kwargs
      else pure kwargs

  abbrev pub inject_query : Fields → String → String → Exec Invoke Fields
  inject_query kwargs entity_id query =
      if str_eq query "" then pure kwargs else inject_for kwargs entity_id query

  abbrev pub inject_entity : Option String → Fields → Exec Invoke Fields
  inject_entity none kwargs = pure kwargs
  inject_entity (some entity_id) kwargs =
      lifted (extract_user_query py.native kwargs) >>= inject_query kwargs entity_id

  unfoldable pub inject_recalled_facts : Fields → Exec Invoke Fields
  unfolding recall_context
  inject_recalled_facts kwargs = reset >> inject_entity config.entity_id kwargs
