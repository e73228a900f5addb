-- ===== src/Augment/Process/Aligned.antt =====
-- Each fact that is written has its own embedding, or none.
use memori.Prelude.{
  ℕ, String, ◌≡◌, ◌≢◌, refl, sym, ◌⊎◌, inl, inr, Option, some, List, [], ◌∷◌, ◌++◌, map,
}
use memori.Struct.{SemanticTriple, EntityJson, MemoriesJson, configure_memories, new_entity}
use memori.Struct.Parsed.{configure_from_advanced_augmentation-parsed, texts, parsed}
use memori.Augment.Process.{
  FactWrite, texts_of, facts_to_embed, process_api_response, facts_to_write, triple_sentence,
  embed_entity,
}

abbrev pub Aligned : (String → List ℕ) → List String → List (List ℕ) → Type 0
Aligned vector facts [] = Unit
Aligned vector [] (e ∷ embeddings) = Unit
Aligned vector (fact ∷ facts) (e ∷ embeddings) = (e ≡ vector fact) × Aligned vector facts embeddings

module _ (vector : String → List ℕ) where
  Aligned-map : (facts more : List String) → Aligned vector (facts ++ more) (map vector facts)
  Aligned-map [] more = tt
  Aligned-map (f ∷ facts) more = (refl, Aligned-map facts more)

  Aligned-own : (facts : List String) → Aligned vector facts (map vector facts)
  Aligned-own [] = tt
  Aligned-own (f ∷ facts) = (refl, Aligned-own facts)

module _ (embed : ℕ → List String → Option (List (List ℕ))) (vector : String → List ℕ)
    (works : (n : ℕ) (texts : List String) → embed n texts ≡ some (map vector texts)) where
  -- Facts some of which have been embedded.
  some-Aligned :
      (f : String) (facts more : List String) (triples : List SemanticTriple)
      → let w = facts_to_write embed (f ∷ facts ++ more) (map vector (f ∷ facts)) triples in
        Aligned vector w.facts w.embeddings
  unfolding facts_to_write
  some-Aligned f facts more [] = Aligned-map vector (f ∷ facts) more
  some-Aligned f facts more (t ∷ triples) = Aligned-map vector (f ∷ facts) more

  all-Aligned :
      (f : String) (facts : List String) (triples : List SemanticTriple)
      → let w = facts_to_write embed (f ∷ facts) (map vector (f ∷ facts)) triples in
        Aligned vector w.facts w.embeddings
  unfolding facts_to_write
  all-Aligned f facts [] = Aligned-own vector (f ∷ facts)
  all-Aligned f facts (t ∷ triples) = Aligned-own vector (f ∷ facts)

  none-Aligned :
      (triples : List SemanticTriple)
      → let w = facts_to_write embed [] [] triples in Aligned vector w.facts w.embeddings
  unfolding facts_to_write
  none-Aligned [] = tt
  none-Aligned (t ∷ triples) =
      rw (works 1 (map triple_sentence (t ∷ triples)))
        (Aligned-own vector (map triple_sentence (t ∷ triples)))

  module _ (lower : String → String) where
    -- What is written of an answer whose entity is `e` now.
    abbrev IsGood : EntityJson → Type 0
    IsGood e =
        let w =
          facts_to_write embed (e.facts ++ texts lower e.triples) e.fact_embeddings
            (parsed lower e.semantic_triples ++ parsed lower e.triples) in
        Aligned vector w.facts w.embeddings

    -- The answer has no facts: those of its triples are embedded.
    from_triples :
        (e : EntityJson) (all : List String)
        → e.facts ≡ []
        → e.fact_embeddings ≡ []
        → texts lower e.triples ≡ all
        → IsGood (embed_entity embed e all)
    from_triples e [] no_facts no_embeddings same =
        simp (no_facts, no_embeddings, same) (none-Aligned _)
    from_triples e (f ∷ facts) no_facts no_embeddings same =
        rw (works 0 (f ∷ facts)) (simp (no_facts, same) (all-Aligned f facts _))

    embedded-IsGood :
        (e : EntityJson) (facts : List String)
        → e.facts ≡ facts
        → ((facts ≢ []) ⊎ ((e.fact_embeddings ≡ []) × (texts_of e.triples ≡ texts lower e.triples)))
        → IsGood (embed_entity embed e (facts_to_embed facts e.triples))
    embedded-IsGood e [] p (inl h) = absurd (h refl)
    embedded-IsGood e [] p (inr h) = from_triples e (texts_of e.triples) p h.0 (sym h.1)
    embedded-IsGood e (f ∷ facts) p h =
        rw (works 0 (f ∷ facts)) (simp p (some-Aligned f facts (texts lower e.triples) _))

abbrev pub write_of :
    (ℕ → List String → Option (List (List ℕ))) → (String → String) → MemoriesJson → FactWrite
write_of embed lower json =
    let m = process_api_response embed lower json in
    facts_to_write embed m.entity.facts m.entity.fact_embeddings m.entity.semantic_triples

-- Where embeddings can be made, what is written of an answer pairs each fact with its own embedding
-- or with none, if the answer has facts, or if it brings no embeddings and each of its triples that
-- has a text parses.
pub write_of-Aligned :
    (embed : ℕ → List String → Option (List (List ℕ))) (lower : String → String)
    (json : MemoriesJson) (e : EntityJson) (vector : String → List ℕ)
    → ((n : ℕ) (ts : List String) → embed n ts ≡ some (map vector ts))
    → json.entity ≡ some e
    → ((e.facts ≢ []) ⊎ ((e.fact_embeddings ≡ []) × (texts_of e.triples ≡ texts lower e.triples)))
    → let w = write_of embed lower json in Aligned vector w.facts w.embeddings
unfolding process_api_response configure_memories
write_of-Aligned embed lower json e vector works p cases =
    rw
      (
        p,
        configure_from_advanced_augmentation-parsed lower
            (embed_entity embed e (facts_to_embed e.facts e.triples)) new_entity,
      )
      (embedded-IsGood embed vector works lower e e.facts refl cases)
