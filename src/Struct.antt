-- ===== src/Struct.antt =====
-- memori/memory/_struct.py: what the augmentation service answers, and the facts and triples that
-- are read from it. A dict is a record of its keys, each `none` where it is missing or `None`, and
-- `str.lower` is a parameter.
pub mod Parsed
use Prim.Native.String.{◌++◌ as concat}
use memori.Prelude.{ℕ, String, Option, none, some, List, [], ◌∷◌, ◌++◌, str_eq, if◌then◌else◌}

-- The attributes are set before a triple is stored.
pub record SemanticTriple : Type 0 where
  pub subject_name : String
  pub subject_type : String
  pub predicate : String
  pub object_name : String
  pub object_type : String

-- `{"name": …, "type": …}`
pub record Part : Type 0 where
  pub name : Option String
  pub type : Option String

-- An entry of `triples` or `semantic_triples`.
pub record TripleEntry : Type 0 where
  pub content : Option String
  pub subject : Option Part
  pub predicate : Option String
  pub object : Option Part

-- The value of the key `entity`.
pub record EntityJson : Type 0 where
  pub facts : List String
  pub fact_embeddings : List (List ℕ)
  pub semantic_triples : List TripleEntry
  pub triples : List TripleEntry

pub record Entity : Type 0 where
  pub facts : List String
  pub fact_embeddings : List (List ℕ)
  pub semantic_triples : List SemanticTriple

-- A text that is neither missing nor empty.
abbrev pub present : Option String → Option String
present none = none
present (some s) = if str_eq s "" then none else some s

abbrev pub and_then {ℓ} : {A B : Type ℓ} → Option A → (A → Option B) → Option B
and_then none f = none
and_then (some a) f = f a

-- `(part or {}).get("name")`, where it is not empty
abbrev pub name_of : Option Part → Option String
name_of none = none
name_of (some p) = present p.name

abbrev pub type_of : Option Part → Option String
type_of none = none
type_of (some p) = present p.type

-- `f"{subject_name} {predicate} {object_name}"`
abbrev pub sentence : String → String → String → String
sentence s p o = concat s (concat " " (concat p (concat " " o)))

abbrev pub content_or : Option String → Option String → Option String
content_or none text = text
content_or (some content) text = some content

unfoldable pub build_fact_text_from_triple_entry : TripleEntry → Option String
build_fact_text_from_triple_entry entry = content_or (present entry.content) (
    and_then (name_of entry.subject) (λ s.
      and_then (present entry.predicate)
        (λ p. and_then (name_of entry.object) (λ o. some (sentence s p o)))))

module _ (lower : String → String) where
  -- `_parse_semantic_triple`
  unfoldable pub parse_semantic_triple : TripleEntry → Option SemanticTriple
  parse_semantic_triple entry = and_then (present entry.predicate) (λ p.
      and_then (name_of entry.subject) (λ s. and_then (type_of entry.subject) (λ s_type.
        and_then (name_of entry.object) (λ o. and_then (type_of entry.object) (λ o_type.
          some (record {
            subject_name = s;
            subject_type = lower s_type;
            predicate = p;
            object_name = o;
            object_type = lower o_type;
          }))))))

  abbrev pub append_triple : Option SemanticTriple → Entity → Entity
  append_triple none e = e
  append_triple (some t) e = record e { semantic_triples = e.semantic_triples ++ t ∷ [] }

  abbrev pub append_fact : Option String → Entity → Entity
  append_fact none e = e
  append_fact (some text) e = record e { facts = e.facts ++ text ∷ [] }

  -- `if triple is not None:` of the second loop
  abbrev pub append_both : Option SemanticTriple → Option String → Entity → Entity
  append_both none text e = e
  append_both (some t) text e = append_fact text (append_triple (some t) e)

  unfoldable pub add_semantic_triples : List TripleEntry → Entity → Entity
  add_semantic_triples [] e = e
  add_semantic_triples (x ∷ xs) e =
      add_semantic_triples xs (append_triple (parse_semantic_triple x) e)

  unfoldable pub add_triples : List TripleEntry → Entity → Entity
  add_triples [] e = e
  add_triples (x ∷ xs) e =
      add_triples xs (append_both (parse_semantic_triple x) (build_fact_text_from_triple_entry x) e)

  -- `Entity.configure_from_advanced_augmentation`
  unfoldable pub configure_from_advanced_augmentation : Option EntityJson → Entity → Entity
  configure_from_advanced_augmentation none e = e
  configure_from_advanced_augmentation (some json) e = add_triples json.triples (
      add_semantic_triples json.semantic_triples (record e {
        facts = e.facts ++ json.facts;
        fact_embeddings = e.fact_embeddings ++ json.fact_embeddings;
      }))

-- class Conversation: `none` for a summary that is missing
pub record Conversation : Type 0 where
  pub summary : Option String

pub record Process : Type 0 where
  pub attributes : List String

pub record Memories : Type 0 where
  pub conversation : Conversation
  pub entity : Entity
  pub process : Process

-- The whole answer. The values of `conversation` and `process` have one key each.
pub record MemoriesJson : Type 0 where
  pub conversation : Option (Option String)
  pub entity : Option EntityJson
  pub process : Option (List String)

unfoldable pub configure_conversation : Option (Option String) → Conversation → Conversation
configure_conversation none c = c
configure_conversation (some summary) c = record { summary = summary }

unfoldable pub configure_process : Option (List String) → Process → Process
configure_process none p = p
configure_process (some attributes) p = record { attributes = p.attributes ++ attributes }

abbrev pub new_entity : Entity
new_entity = record { facts = []; fact_embeddings = []; semantic_triples = [] }

-- `Memories.configure_from_advanced_augmentation`: each part is made anew.
unfoldable pub configure_memories : (String → String) → MemoriesJson → Memories → Memories
unfolding configure_from_advanced_augmentation configure_conversation configure_process
configure_memories lower json memories = record {
  conversation = configure_conversation json.conversation (record { summary = none });
  entity = configure_from_advanced_augmentation lower json.entity new_entity;
  process = configure_process json.process (record { attributes = [] });
}
