-- ===== src/Augment/Process.antt =====
-- class AdvancedAugmentation, and the loop of `Manager._process_augmentations` around it, over the
-- SQLite driver. The service, the embeddings and `str.lower` are outside: `embed n` is what the `n`-th
-- call of `_embed_facts` gives, `none` where it failed.
pub mod Aligned
pub mod Queued
use memori.Prelude.{ℕ, String, Option, none, some, List, [], ◌∷◌, ◌++◌, map, ◌==◌, if◌then◌else◌}
use memori.Exec.{Exc, quota, Exec, Result, ok, err, pure, raise, ◌>>=◌, ◌>>◌}
use memori.Sql.{Row}
use memori.Schema.{ConversationRow}
use memori.Conn.{Env, Conn, commit, rollback}
use memori.Struct.{
  SemanticTriple, TripleEntry, EntityJson, Entity, Memories, MemoriesJson, present, sentence,
  build_fact_text_from_triple_entry, configure_memories, new_entity,
}
use memori.Memory.Writer.{ConversationMessage}
use memori.Memory.DbWriter.{WriteTask, DbWriterRuntime, enqueue_write}
use memori.Storage.Connection.{undo_and_raise}
use memori.Sqlite.Calls.{
  Call, entity_fact_create, knowledge_graph_create, process_attribute_create, conversation_update,
}
use memori.Sqlite.Conversation
use memori.Sqlite.Entity
use memori.Sqlite.Process
use memori.Augment.Select.{select_messages_for_summary}

-- class AugmentationInput
pub record AugmentationInput : Type 0 where
  pub conversation_id : Option ℕ
  pub entity_id : Option String
  pub process_id : Option String
  pub conversation_messages : List ConversationMessage

-- What `augmentation_async` returns, `none` for an empty dict, or raises.
pub data Answer : Type 0 where
  answered : Option MemoriesJson → Answer
  failed : Exc → Answer

-- The connection, and `ctx.writes`: what is scheduled stays when a later step raises.
pub record Work : Type 0 where
  pub conn : Conn
  pub writes : List Call

abbrev pub on_db : {A : Type 0} → Exec Conn A → Exec Work A
on_db m w = let (r, conn') = m w.conn in (r, record w { conn = conn' })

-- `ctx.add_write(…)`
abbrev pub add_write : Call → Exec Work (Unit {0})
add_write call w = (ok tt, record w { writes = w.writes ++ call ∷ [] })

-- An id that is there and not 0.
abbrev pub true_id : Option ℕ → Option ℕ
true_id none = none
true_id (some i) = if i == 0 then none else some i

abbrev pub add_text : Option String → List String → List String
add_text none texts = texts
add_text (some text) texts = text ∷ texts

-- The texts of all entries that have one.
unfoldable pub texts_of : List TripleEntry → List String
texts_of [] = []
texts_of (x ∷ xs) = add_text (build_fact_text_from_triple_entry x) (texts_of xs)

-- `if not facts and triples:`
abbrev pub facts_to_embed : List String → List TripleEntry → List String
facts_to_embed [] triples = texts_of triples
facts_to_embed (f ∷ facts) triples = f ∷ facts

-- `f"{triple.subject_name} {triple.predicate} {triple.object_name}"`
abbrev pub triple_sentence : SemanticTriple → String
triple_sentence t = sentence t.subject_name t.predicate t.object_name

-- The facts and the embeddings that are written.
pub record FactWrite : Type 0 where
  pub facts : List String
  pub embeddings : List (List ℕ)

abbrev pub summary_in : Result (Option (Row ConversationRow)) → String
summary_in (ok (some (_, c))) = elim (present c.summary) [ none ↦ "" | some text ↦ text ]
summary_in r = ""

abbrev pub no_memories : Memories
no_memories = record {
  conversation = record { summary = none };
  entity = new_entity;
  process = record { attributes = [] };
}

module _ (embed : ℕ → List String → Option (List (List ℕ))) where
  abbrev set_embeddings : EntityJson → Option (List (List ℕ)) → EntityJson
  set_embeddings e none = e
  set_embeddings e (some embeddings) = record e { fact_embeddings = embeddings }

  abbrev embed_entity : EntityJson → List String → EntityJson
  embed_entity e [] = e
  embed_entity e (f ∷ facts) = set_embeddings e (embed 0 (f ∷ facts))

  abbrev embed_answer : Option EntityJson → Option EntityJson
  embed_answer none = none
  embed_answer (some e) = some (embed_entity e (facts_to_embed e.facts e.triples))

  unfoldable pub process_api_response : (String → String) → MemoriesJson → Memories
  unfolding configure_memories texts_of
  process_api_response lower json =
      configure_memories lower (record json { entity = embed_answer json.entity }) no_memories

  abbrev with_embedded : List String → List (List ℕ) → Option (List (List ℕ)) → FactWrite
  with_embedded facts embeddings none = record { facts = facts; embeddings = embeddings }
  with_embedded facts embeddings (some more) = record {
    facts = facts;
    embeddings = embeddings ++ more;
  }

  -- `if memories.entity.semantic_triples and (not facts_to_write or not embeddings_to_write):`
  unfoldable pub facts_to_write : List String → List (List ℕ) → List SemanticTriple → FactWrite
  facts_to_write facts embeddings [] = record { facts = facts; embeddings = embeddings }
  facts_to_write (f ∷ facts) (e ∷ embeddings) (t ∷ triples) = record {
    facts = f ∷ facts;
    embeddings = e ∷ embeddings;
  }
  facts_to_write facts embeddings (t ∷ triples) =
      let sentences = map triple_sentence (t ∷ triples) in
      with_embedded (facts ++ sentences) embeddings (embed 1 sentences)

abbrev pub write_facts : ℕ → ℕ → FactWrite → Exec Work (Unit {0})
write_facts entity_id conversation_id w = elim w.facts [
  | [] ↦ pure tt
  | fact ∷ facts ↦ add_write (
      entity_fact_create entity_id (some (fact ∷ facts)) (some w.embeddings) (some conversation_id))
]

abbrev pub write_triples : ℕ → List SemanticTriple → Exec Work (Unit {0})
write_triples entity_id [] = pure tt
write_triples entity_id (t ∷ triples) =
    add_write (knowledge_graph_create entity_id (some (t ∷ triples)))

abbrev pub write_attributes : ℕ → List String → Exec Work (Unit {0})
write_attributes process_id [] = pure tt
write_attributes process_id (a ∷ attributes) =
    add_write (process_attribute_create process_id (some (a ∷ attributes)))

module _ (env : Env) (lower : String → String)
    (embed : ℕ → List String → Option (List (List ℕ))) where
  -- `try:` around `driver.conversation.read`
  unfoldable pub get_conversation_summary : ℕ → Exec Conn String
  get_conversation_summary conversation_id c =
      let (r, c') = Conversation.read env conversation_id c in (ok (summary_in r), c')

  unfoldable pub schedule_entity_writes : String → ℕ → Memories → Exec Work (Unit {0})
  unfolding facts_to_write
  schedule_entity_writes external_id conversation_id memories = do
    entity_id ← on_db (Entity.create env external_id)
    if entity_id == 0
        then pure tt
        else (write_facts entity_id conversation_id (
              facts_to_write embed memories.entity.facts memories.entity.fact_embeddings
                memories.entity.semantic_triples)
            >> write_triples entity_id memories.entity.semantic_triples)

  unfoldable pub schedule_process_writes : Option String → Memories → Exec Work (Unit {0})
  schedule_process_writes none memories = pure tt
  schedule_process_writes (some external_id) memories = do
    process_id ← on_db (Process.create env external_id)
    if process_id == 0 then pure tt else write_attributes process_id memories.process.attributes

  unfoldable pub schedule_conversation_writes : ℕ → Option String → Exec Work (Unit {0})
  schedule_conversation_writes conversation_id none = pure tt
  schedule_conversation_writes conversation_id (some summary) =
      add_write (conversation_update conversation_id (some summary))

  abbrev pub schedule_writes : String → ℕ → Option String → Memories → Exec Work (Unit {0})
  schedule_writes external_id conversation_id process_id memories = do
    schedule_entity_writes external_id conversation_id memories
    schedule_process_writes process_id memories
    schedule_conversation_writes conversation_id (present memories.conversation.summary)

  unfoldable pub use_answer : String → ℕ → Option String → Answer → Exec Work (Unit {0})
  unfolding process_api_response schedule_entity_writes schedule_process_writes
      schedule_conversation_writes
  use_answer external_id conversation_id process_id (failed quota) = raise quota
  use_answer external_id conversation_id process_id (failed e) = pure tt
  use_answer external_id conversation_id process_id (answered none) = pure tt
  use_answer external_id conversation_id process_id (answered (some json)) =
      schedule_writes external_id conversation_id process_id (process_api_response embed lower json)

  module _ (api : List ConversationMessage → String → Answer) where
    abbrev process_for : Option String → Option ℕ → AugmentationInput → Exec Work (Unit {0})
    process_for (some external_id) (some conversation_id) input = do
      summary ← on_db (get_conversation_summary conversation_id)
      use_answer external_id conversation_id (present input.process_id)
          (api (select_messages_for_summary input.conversation_messages summary) summary)
    process_for external_id conversation_id input = pure tt

    -- `AdvancedAugmentation.process`
    unfoldable pub process : AugmentationInput → Exec Work (Unit {0})
    unfolding get_conversation_summary use_answer
    process input = process_for (present input.entity_id) (true_id input.conversation_id) input

-- `_enqueue_writes`, of one factory
unfoldable pub enqueue_writes : ℕ → List Call → DbWriterRuntime → DbWriterRuntime
enqueue_writes conn_factory [] w = w
enqueue_writes conn_factory (call ∷ calls) w =
    enqueue_writes conn_factory calls
      (enqueue_write (record { conn_factory = conn_factory; method = some call }) w).1

-- `except Exception` around one augmentation: the quota error goes on, any other is dropped.
abbrev pub keep_quota : Result (Unit {0}) × Work → Result (Unit {0}) × Work
keep_quota (err quota, w) = (err quota, w)
keep_quota (err e, w) = (ok tt, w)
keep_quota (ok u, w) = (ok tt, w)

-- The loop over the enabled augmentations.
unfoldable pub run_augmentations : List (Exec Work (Unit {0})) → Exec Work (Unit {0})
run_augmentations [] w = (ok tt, w)
run_augmentations (aug ∷ augs) w =
    let (r, w') = keep_quota (aug w) in
    elim r [ ok _ ↦ run_augmentations augs w' | err e ↦ (err e, w') ]

-- What is raised, the connection, and the queue of writes.
pub record Processed : Type 0 where
  pub raised : Option Exc
  pub conn : Conn
  pub writer : DbWriterRuntime

abbrev pub finish : Env → ℕ → DbWriterRuntime → Result (Unit {0}) × Work → Processed
finish env conn_factory writer (ok u, w) = record {
  raised = none;
  conn = (undo_and_raise env (commit env w.conn)).1;
  writer = enqueue_writes conn_factory w.writes writer;
}
finish env conn_factory writer (err e, w) = record {
  raised = some e;
  conn = (rollback env w.conn).1;
  writer = writer;
}

-- `_process_augmentations`, over the connection that it opens; an error of the last commit is logged.
unfoldable pub process_augmentations :
    Env → ℕ → List (Exec Work (Unit {0})) → Conn → DbWriterRuntime → Processed
unfolding run_augmentations enqueue_writes
process_augmentations env conn_factory augmentations conn writer =
    finish env conn_factory writer
      (run_augmentations augmentations (record { conn = conn; writes = [] }))
