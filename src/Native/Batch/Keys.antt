-- ===== src/Native/Batch/Keys.antt =====
-- A batch of the engine keeps what the tables' constraints promise.
use memori.Prelude.{ℕ, String, Option, none, some, List, [], ◌∷◌}
use memori.Exec.{Exec}
use memori.Exec.Preserves.{Preserves, preserves_rules, Preserves-bind, Preserves-pure, Preserves-if}
use memori.Schema.{Db}
use memori.Conn.{Env, Conn}
use memori.Conn.Quiet.{Both}
use memori.Json.{Json, null, boolean, number, text, array, object, Items, nil, cons, Fields}
use memori.Struct.{SemanticTriple}
use memori.Native.Values.{Values, to_optional_int}
use memori.Native.Batch.{
  Services, write_facts, create_entity_facts, write_triples, create_knowledge_graph,
  write_attributes, create_process_attributes, set_summary, update_conversation, upsert_fact,
  apply_write_op, apply_payload, object_of, apply_op, apply_ops, write_batch,
}
use memori.Storage.Connection.{Preserves-connection_context}
use memori.Sqlite.Invariant.{IsInvariant}
use memori.Sqlite.Invariant.Methods
use memori.Sqlite.Keys.{IsKeyed}
use memori.Sqlite.Keys.Runs.{IsKeyed-IsInvariant}

ruleset batch_rules = (
  preserves_rules, Methods.Entity-create, Methods.Process-create, Methods.create_attributes,
  Methods.Conversation-update, Methods.EntityFact-create, Methods.KnowledgeGraph-create,
)

module _ {P : Db → Type 0} (inv : IsInvariant P) (env : Env) (py : Values)
    (services : Services) where
  abbrev Keeps : {A : Type 0} → Exec Conn A → Type 0
  Keeps m = Preserves (Both P) m

  keeps-to_optional_int : (v : Option Json) → Keeps (to_optional_int py v)
  unfolding to_optional_int
  keeps-to_optional_int none = Preserves-pure _
  keeps-to_optional_int (some null) = Preserves-pure _
  keeps-to_optional_int (some (boolean b)) = Preserves-pure _
  keeps-to_optional_int (some (number n)) = Preserves-pure _
  keeps-to_optional_int (some (text s)) = search (preserves_rules, Preserves-if)
  keeps-to_optional_int (some (array xs)) = Preserves-pure _
  keeps-to_optional_int (some (object d)) = Preserves-pure _

  keeps-write_facts :
      (e : ℕ) (payload : Fields) (facts : List String)
      → Keeps (write_facts env py services e payload facts)
  unfolding write_facts
  keeps-write_facts e payload [] = Preserves-pure _
  keeps-write_facts e payload (f ∷ fs) = search (batch_rules, keeps-to_optional_int)

  keeps-create_entity_facts :
      (raw : Option String) (payload : Fields)
      → Keeps (create_entity_facts env py services raw payload)
  unfolding create_entity_facts
  keeps-create_entity_facts none payload = Preserves-pure _
  keeps-create_entity_facts (some raw) payload = search (batch_rules, keeps-write_facts)

  keeps-write_triples :
      (e : ℕ) (ts : List SemanticTriple) → Keeps (write_triples env py services e ts)
  unfolding write_triples
  keeps-write_triples e [] = Preserves-pure _
  keeps-write_triples e (t ∷ ts) = search batch_rules

  keeps-create_knowledge_graph :
      (raw : Option String) (payload : Fields)
      → Keeps (create_knowledge_graph env py services raw payload)
  unfolding create_knowledge_graph
  keeps-create_knowledge_graph none payload = Preserves-pure _
  keeps-create_knowledge_graph (some raw) payload = search (batch_rules, keeps-write_triples)

  keeps-write_attributes :
      (p : ℕ) (xs : List String) → Keeps (write_attributes env py services p xs)
  unfolding write_attributes
  keeps-write_attributes p [] = Preserves-pure _
  keeps-write_attributes p (x ∷ xs) = search batch_rules

  keeps-create_process_attributes :
      (raw : Option String) (payload : Fields)
      → Keeps (create_process_attributes env py services raw payload)
  unfolding create_process_attributes
  keeps-create_process_attributes none payload = Preserves-pure _
  keeps-create_process_attributes (some raw) payload = search (batch_rules, keeps-write_attributes)

  keeps-set_summary : (i : Option ℕ) (s : Option String) → Keeps (set_summary env py services i s)
  unfolding set_summary
  keeps-set_summary (some i) (some s) = search batch_rules
  keeps-set_summary (some i) none = Preserves-pure _
  keeps-set_summary none s = Preserves-pure _

  keeps-update_conversation :
      (payload : Fields) → Keeps (update_conversation env py services payload)
  unfolding update_conversation
  keeps-update_conversation payload =
      search (preserves_rules, keeps-to_optional_int, keeps-set_summary)

  keeps-upsert_fact :
      (raw content : Option String) → Keeps (upsert_fact env py services raw content)
  unfolding upsert_fact
  keeps-upsert_fact (some raw) (some content) = search batch_rules
  keeps-upsert_fact (some raw) none = Preserves-pure _
  keeps-upsert_fact none content = Preserves-pure _

  keeps-apply_write_op :
      (op_type : String) (payload : Fields) → Keeps (apply_write_op env py services op_type payload)
  unfolding apply_write_op
  keeps-apply_write_op op_type payload =
      search
        (
          preserves_rules, Preserves-if, keeps-create_entity_facts, keeps-create_knowledge_graph,
          keeps-create_process_attributes, keeps-update_conversation, keeps-upsert_fact,
        )
        depth 10

  keeps-apply_payload :
      (op_type : String) (payload : Option Fields)
      → Keeps (apply_payload env py services op_type payload)
  keeps-apply_payload op_type none = Preserves-pure _
  keeps-apply_payload op_type (some payload) = keeps-apply_write_op op_type payload

  keeps-apply_op : (op : Option Fields) → Keeps (apply_op env py services op)
  unfolding apply_op
  keeps-apply_op none = Preserves-pure _
  keeps-apply_op (some op) = search keeps-apply_payload

  keeps-apply_ops : (ops : Items) (written : ℕ) → Keeps (apply_ops env py services ops written)
  unfolding apply_ops
  keeps-apply_ops nil written = Preserves-pure _
  keeps-apply_ops (cons op ops) written =
      Preserves-bind _ _ (keeps-apply_op (object_of op)) (λ did. keeps-apply_ops ops _)

  keeps-write_batch : (batch_json : String) → Keeps (write_batch env py services batch_json)
  unfolding write_batch
  keeps-write_batch batch_json =
      search (preserves_rules, Preserves-connection_context, keeps-apply_ops)

-- A batch of the engine, done over a connection both of whose databases have ascending ids and no
-- two rows that a uniqueness constraint (other than that of `uuid`) keeps apart, leaves such a
-- connection, whatever text the engine sends and whichever statements, commits and rollbacks raise.
pub write_batch-IsKeyed :
    (env : Env) (py : Values) (services : Services) (batch_json : String) (c : Conn)
    → Both IsKeyed c
    → Both IsKeyed (write_batch env py services batch_json c).1
write_batch-IsKeyed env py services batch_json c b =
    (keeps-write_batch IsKeyed-IsInvariant env py services batch_json).at c b
