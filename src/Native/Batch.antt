-- ===== src/Native/Batch.antt =====
-- The callback `_write_batch_cb` of memori/native/_adapter.py: the operations that the engine sends,
-- done by the SQLite driver.
pub mod Keys
pub mod Written
use memori.Prelude.{
  ℕ, suc, String, Bool, true, false, Option, none, some, List, [], ◌∷◌, length, str_eq,
  if◌then◌else◌,
}
use memori.Exec.{Exc, other, Exec, pure, raise, or_raise, ◌>>=◌, ◌>>◌}
use memori.Conn.{Env, Conn}
use memori.Json.{
  Json, null, boolean, number, text, array, object, Items, nil, cons, Fields, end, get,
}
use memori.Struct.{SemanticTriple, present}
use memori.Storage.Connection.{connection_context}
use memori.Native.Values.{
  Values, str, given, to_optional_int, normalize_fact_embeddings, facts_of, to_semantic_triples,
  normalize_attributes,
}
use memori.Sqlite.Entity
use memori.Sqlite.Process
use memori.Sqlite.Conversation
use memori.Sqlite.EntityFact
use memori.Sqlite.KnowledgeGraph

-- What the callback calls beside the driver: `json.loads`, `config.embeddings.model`, the method
-- `embed_texts` of `config.rust_core`, if there is one, and the function `embed_texts`. An embedding
-- that raises is `none`.
pub record Services : Type 0 where
  pub loads : String → Option Json
  pub embeddings_model : Option String
  pub core_embed_texts : Option (List String → String → Option (List (List ℕ)))
  pub embed_texts : List String → String → Option (List (List ℕ))

module _ (services : Services) where
  abbrev pub embed_by :
      Option (List String → String → Option (List (List ℕ)))
      → List String
      → String
      → Option (List (List ℕ))
  embed_by none facts model = services.embed_texts facts model
  embed_by (some embed_fn) facts model = embed_fn facts model

  -- `_embed_entity_facts`
  unfoldable pub embed_entity_facts : List String → String → Option (List (List ℕ))
  embed_entity_facts facts model = embed_by services.core_embed_texts facts model

  abbrev pub embed_with : Option String → List String → Option (List (List ℕ))
  embed_with none facts = none
  embed_with (some model) facts = embed_entity_facts facts model

  -- The embeddings that were sent, or those that the configured model gives.
  abbrev pub or_embed : Option (List (List ℕ)) → List String → Option (List (List ℕ))
  or_embed none facts = embed_with (present services.embeddings_model) facts
  or_embed (some embeddings) facts = some embeddings

-- `none` for a summary that is missing or `None`
abbrev pub summary_text : Values → Option Json → Option String
summary_text py none = none
summary_text py (some null) = none
summary_text py (some v) = some (str py v)

-- `content`, if it is a text that is not blank
abbrev pub content_text : Values → Option Json → Option String
content_text py (some (text s)) = if str_eq (py.strip s) "" then none else some s
content_text py v = none

-- A value that is not a text equals no name of an operation.
abbrev pub name_of : Option Json → String
name_of (some (text s)) = s
name_of v = ""

-- `isinstance(v, dict)`
abbrev pub object_of : Json → Option Fields
object_of (object d) = some d
object_of v = none

-- `op.get("payload", {})`, if it is a dict
abbrev pub payload_of : Option Json → Option Fields
payload_of none = some end
payload_of (some v) = object_of v

-- `batch.get("ops", [])`, if it is a list
abbrev pub ops_of : Option Json → Option Items
ops_of none = some nil
ops_of (some (array ops)) = some ops
ops_of (some v) = none

abbrev pub object_in : Option Json → Option Fields
object_in none = none
object_in (some v) = object_of v

-- `_parse_json_object`; it raises where this is `none`.
abbrev pub parse_object : Services → String → Option Fields
parse_object services raw = object_in (services.loads raw)

module _ (env : Env) (py : Values) (services : Services) where
  unfoldable pub write_facts : ℕ → Fields → List String → Exec Conn Bool
  unfolding embed_entity_facts to_optional_int normalize_fact_embeddings
  write_facts entity_id payload [] = pure false
  write_facts entity_id payload (fact ∷ facts) = do
    conversation_id ← to_optional_int py (get "conversation_id" payload)
    let sent = normalize_fact_embeddings py (get "fact_embeddings" payload) (length (fact ∷ facts))
    EntityFact.create env entity_id (some (fact ∷ facts)) (or_embed services sent (fact ∷ facts))
        conversation_id
    pure true

  unfoldable pub create_entity_facts : Option String → Fields → Exec Conn Bool
  unfolding write_facts facts_of
  create_entity_facts none payload = pure false
  create_entity_facts (some raw_entity) payload = do
    entity_id ← Entity.create env raw_entity
    write_facts entity_id payload (facts_of py (get "facts" payload))

  unfoldable pub write_triples : ℕ → List SemanticTriple → Exec Conn Bool
  write_triples entity_id [] = pure false
  write_triples entity_id (t ∷ triples) = do
    KnowledgeGraph.create env entity_id (some (t ∷ triples))
    pure true

  unfoldable pub create_knowledge_graph : Option String → Fields → Exec Conn Bool
  unfolding write_triples to_semantic_triples
  create_knowledge_graph none payload = pure false
  create_knowledge_graph (some raw_entity) payload = do
    entity_id ← Entity.create env raw_entity
    write_triples entity_id (to_semantic_triples py (get "semantic_triples" payload))

  unfoldable pub write_attributes : ℕ → List String → Exec Conn Bool
  write_attributes process_id [] = pure false
  write_attributes process_id (a ∷ attributes) = do
    Process.create_attributes env process_id (some (a ∷ attributes))
    pure true

  unfoldable pub create_process_attributes : Option String → Fields → Exec Conn Bool
  unfolding write_attributes normalize_attributes
  create_process_attributes none payload = pure false
  create_process_attributes (some raw_process) payload = do
    process_id ← Process.create env raw_process
    write_attributes process_id (normalize_attributes py (get "attributes" payload))

  unfoldable pub set_summary : Option ℕ → Option String → Exec Conn Bool
  set_summary (some conversation_id) (some summary) = do
    Conversation.update env conversation_id (some summary)
    pure true
  set_summary conversation_id summary = pure false

  unfoldable pub update_conversation : Fields → Exec Conn Bool
  unfolding set_summary to_optional_int
  update_conversation payload = do
    conversation_id ← to_optional_int py (get "conversation_id" payload)
    set_summary conversation_id (summary_text py (get "summary" payload))

  unfoldable pub upsert_fact : Option String → Option String → Exec Conn Bool
  upsert_fact (some raw_entity) (some content) = do
    entity_id ← Entity.create env raw_entity
    EntityFact.create env entity_id (some (content ∷ [])) none none
    pure true
  upsert_fact raw_entity content = pure false

  -- `_apply_write_op`
  unfoldable pub apply_write_op : String → Fields → Exec Conn Bool
  unfolding create_entity_facts create_knowledge_graph create_process_attributes update_conversation
      upsert_fact
  apply_write_op op_type payload =
      if str_eq op_type "entity_fact.create"
      then create_entity_facts (given py (get "entity_id" payload)) payload
      else if str_eq op_type "knowledge_graph.create"
      then create_knowledge_graph (given py (get "entity_id" payload)) payload
      else if str_eq op_type "process_attribute.create"
      then create_process_attributes (given py (get "process_id" payload)) payload
      else if str_eq op_type "conversation.update"
      then update_conversation payload
      else if str_eq op_type "upsert_fact"
      then upsert_fact (given py (get "entity_id" payload))
          (content_text py (get "content" payload))
      else pure false

  -- `not isinstance(payload, dict)` skips the operation.
  abbrev pub apply_payload : String → Option Fields → Exec Conn Bool
  apply_payload op_type none = pure false
  apply_payload op_type (some payload) = apply_write_op op_type payload

  -- One round of the loop: whether the operation counts as written.
  unfoldable pub apply_op : Option Fields → Exec Conn Bool
  unfolding apply_write_op
  apply_op none = pure false
  apply_op (some op) = apply_payload (name_of (get "op_type" op)) (payload_of (get "payload" op))

  -- The loop, with the count so far.
  unfoldable pub apply_ops : Items → ℕ → Exec Conn ℕ
  apply_ops nil written = pure written
  apply_ops (cons op ops) written =
      apply_op (object_of op) >>= λ did. apply_ops ops (if did then suc written else written)

  -- `_callback` of `_write_batch_cb`; the value is that of `written_ops` in the answer.
  unfoldable pub write_batch : String → Exec Conn ℕ
  unfolding apply_ops connection_context
  write_batch batch_json = do
    batch ← or_raise other (parse_object services batch_json)
    ops ← or_raise other (ops_of (get "ops" batch))
    connection_context env (apply_ops ops 0)
