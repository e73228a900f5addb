-- ===== src/Tests/Answers.antt =====
-- Runs of what is read from an answer.
use memori.Prelude.{String, ◌≡◌, none, some, [], ◌∷◌, ◌++◌}
use memori.Struct.{MemoriesJson, Memories, configure_memories, SemanticTriple}
use memori.Struct.{Part, TripleEntry, EntityJson, configure_from_advanced_augmentation}
use memori.Struct as Struct
use memori.Struct.Parsed.{parsed, texts, configure_from_advanced_augmentation-parsed}

abbrev part : String → Part
part s = record { name = some s; type = some "Thing" }

abbrev json : EntityJson
json = record {
  facts = "sky" ∷ [];
  fact_embeddings = (1 ∷ []) ∷ [];
  semantic_triples = [];
  triples =
      record {
        content = none;
        subject = some (part "a");
        predicate = some "b";
        object = some (part "c");
      }
      ∷ record {
        content = some "d";
        subject = none;
        predicate = some "b";
        object = some (part "c");
      }
      ∷ [];
}

abbrev entity : Struct.Entity
entity = record { facts = []; fact_embeddings = []; semantic_triples = [] }

configure_from_advanced_augmentation-parsed_example :
    configure_from_advanced_augmentation (λ s. s) (some json) entity ≡ record {
      facts = entity.facts ++ json.facts ++ texts (λ s. s) json.triples;
      fact_embeddings = entity.fact_embeddings ++ json.fact_embeddings;
      semantic_triples =
          entity.semantic_triples
          ++ parsed (λ s. s) json.semantic_triples
          ++ parsed (λ s. s) json.triples;
    }
configure_from_advanced_augmentation-parsed_example =
    configure_from_advanced_augmentation-parsed (λ s. s) json entity

abbrev answer : MemoriesJson
answer = record { conversation = some none; entity = some json; process = none }

abbrev old : Memories
old = record {
  conversation = record { summary = some "x" };
  entity = record { facts = "old" ∷ []; fact_embeddings = []; semantic_triples = [] };
  process = record { attributes = [] };
}
