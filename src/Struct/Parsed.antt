-- ===== src/Struct/Parsed.antt =====
-- What the loops of `configure_from_advanced_augmentation` add, against a filter of the entries.
use mathlib.Core.List.{append_assoc, append-nil}
use memori.Prelude.{ap, String, ◌≡◌, refl, ◌∙◌, Option, none, some, List, [], ◌∷◌, ◌++◌}
use memori.Struct.{
  SemanticTriple, TripleEntry, EntityJson, Entity, present, name_of, type_of, content_or, sentence,
  build_fact_text_from_triple_entry, parse_semantic_triple, append_triple, append_both,
  add_semantic_triples, add_triples, configure_from_advanced_augmentation, MemoriesJson, Memories,
  configure_memories, new_entity,
}

abbrev cons_some {ℓ} : {A : Type ℓ} → Option A → List A → List A
cons_some none l = l
cons_some (some a) l = a ∷ l

abbrev text_or_empty : Option String → String
text_or_empty none = ""
text_or_empty (some s) = s

module _ (lower : String → String) where
  -- The triples of the entries that parse.
  abbrev pub parsed : List TripleEntry → List SemanticTriple
  parsed [] = []
  parsed (x ∷ xs) = cons_some (parse_semantic_triple lower x) (parsed xs)

  abbrev text_of : Option SemanticTriple → TripleEntry → Option String
  text_of none x = none
  text_of (some t) x = some (
      text_or_empty
        (content_or (present x.content) (some (sentence t.subject_name t.predicate t.object_name))))

  -- The texts of the entries that parse: the content, or the sentence of the triple.
  abbrev pub texts : List TripleEntry → List String
  texts [] = []
  texts (x ∷ xs) = cons_some (text_of (parse_semantic_triple lower x) x) (texts xs)

  add_semantic_triples-parsed :
      (xs : List TripleEntry) (e : Entity)
      → add_semantic_triples lower xs e
        ≡ record e { semantic_triples = e.semantic_triples ++ parsed xs }
  unfolding add_semantic_triples
  add_semantic_triples-parsed [] e = rw append-nil refl
  add_semantic_triples-parsed (x ∷ xs) e =
      go (parse_semantic_triple lower x) (λ e'. add_semantic_triples-parsed xs e')
    where
      go :
          (o : Option SemanticTriple)
          → ((e' : Entity)
              → add_semantic_triples lower xs e'
                ≡ record e' { semantic_triples = e'.semantic_triples ++ parsed xs })
          → add_semantic_triples lower xs (append_triple lower o e)
            ≡ record e { semantic_triples = e.semantic_triples ++ cons_some o (parsed xs) }
      go none rest = rest e
      go (some t) rest =
          rest (append_triple lower (some t) e)
          ∙ rw (append_assoc e.semantic_triples (t ∷ []) (parsed xs)) refl

  -- An entry that parses has a text.
  build_fact_text-text_of :
      (content p s s_type o o_type : Option String) (x : TripleEntry)
      → present x.content ≡ content
      → present x.predicate ≡ p
      → name_of x.subject ≡ s
      → type_of x.subject ≡ s_type
      → name_of x.object ≡ o
      → type_of x.object ≡ o_type
      → (e : Entity)
      → append_both lower (parse_semantic_triple lower x) (build_fact_text_from_triple_entry x) e
        ≡ append_both lower
            (parse_semantic_triple lower x)
            (text_of (parse_semantic_triple lower x) x)
            e
  unfolding parse_semantic_triple build_fact_text_from_triple_entry
  build_fact_text-text_of c none s st o ot x ec ep es est eo eot e = rw ep refl
  build_fact_text-text_of c (some p) none st o ot x ec ep es est eo eot e = rw (ep, es) refl
  build_fact_text-text_of c (some p) (some s) none o ot x ec ep es est eo eot e =
      rw (ep, es, est) refl
  build_fact_text-text_of c (some p) (some s) (some st) none ot x ec ep es est eo eot e =
      rw (ep, es, est, eo) refl
  build_fact_text-text_of c (some p) (some s) (some st) (some o) none x ec ep es est eo eot e =
      rw (ep, es, est, eo, eot) refl
  build_fact_text-text_of none (some p) (some s) (some st) (some o) (some ot) x ec ep es est eo eot
        e =
      rw (ep, es, est, eo, eot, ec) refl
  build_fact_text-text_of (some c) (some p) (some s) (some st) (some o) (some ot) x ec ep es est eo
        eot e =
      rw (ep, es, est, eo, eot, ec) refl

  add_triples-parsed :
      (xs : List TripleEntry) (e : Entity)
      → add_triples lower xs e ≡ record e {
        facts = e.facts ++ texts xs;
        semantic_triples = e.semantic_triples ++ parsed xs;
      }
  unfolding add_triples
  add_triples-parsed [] e = rw (append-nil e.facts, append-nil e.semantic_triples) refl
  add_triples-parsed (x ∷ xs) e =
      rw
        (build_fact_text-text_of (present x.content) (present x.predicate) (name_of x.subject)
          (type_of x.subject) (name_of x.object) (type_of x.object) x refl refl refl refl refl refl
          e)
        (go (parse_semantic_triple lower x) (λ e'. add_triples-parsed xs e'))
    where
      go :
          (o : Option SemanticTriple)
          → ((e' : Entity)
              → add_triples lower xs e' ≡ record e' {
                facts = e'.facts ++ texts xs;
                semantic_triples = e'.semantic_triples ++ parsed xs;
              })
          → add_triples lower xs (append_both lower o (text_of o x) e) ≡ record e {
            facts = e.facts ++ cons_some (text_of o x) (texts xs);
            semantic_triples = e.semantic_triples ++ cons_some o (parsed xs);
          }
      go none rest = rest e
      go (some t) rest =
          rest (append_both lower (some t) (text_of (some t) x) e)
          ∙ rw
              (
                append_assoc e.semantic_triples (t ∷ []) (parsed xs),
                append_assoc e.facts _ (texts xs),
              )
              refl

  -- `Entity.configure_from_advanced_augmentation` of an answer that has an entity appends, in
  -- order: to the triples those of the entries of `semantic_triples` that parse, then those of
  -- `triples` that do; to the facts the answer's facts, then a text for each entry of `triples`
  -- that parses and for no other; and to the embeddings the answer's embeddings.
  pub configure_from_advanced_augmentation-parsed :
      (json : EntityJson) (e : Entity)
      → configure_from_advanced_augmentation lower (some json) e ≡ record {
        facts = e.facts ++ json.facts ++ texts json.triples;
        fact_embeddings = e.fact_embeddings ++ json.fact_embeddings;
        semantic_triples =
            e.semantic_triples ++ parsed json.semantic_triples ++ parsed json.triples;
      }
  unfolding configure_from_advanced_augmentation
  configure_from_advanced_augmentation-parsed json e =
      rw
        (
          add_semantic_triples-parsed json.semantic_triples _,
          add_triples-parsed json.triples _,
          append_assoc e.facts json.facts (texts json.triples),
          append_assoc e.semantic_triples (parsed json.semantic_triples) (parsed json.triples),
        )
        refl

-- What `Memories` has of an answer without the key `entity`, or with it.
abbrev pub entity_facts : (String → String) → Option EntityJson → List String
entity_facts lower none = []
entity_facts lower (some json) = json.facts ++ texts lower json.triples

abbrev pub entity_triples : (String → String) → Option EntityJson → List SemanticTriple
entity_triples lower none = []
entity_triples lower (some json) = parsed lower json.semantic_triples ++ parsed lower json.triples

-- `Memories.configure_from_advanced_augmentation` forgets what the memories had: its facts and
-- triples are those of the answer alone, none if the answer has no entity.
pub configure_memories-parsed :
    (lower : String → String) (json : MemoriesJson) (memories : Memories)
    → let m = configure_memories lower json memories in
      (m.entity.facts ≡ entity_facts lower json.entity)
      × (m.entity.semantic_triples ≡ entity_triples lower json.entity)
unfolding configure_memories configure_from_advanced_augmentation
configure_memories-parsed lower json memories = go json.entity
  where
    go :
        (e : Option EntityJson)
        → let e' = configure_from_advanced_augmentation lower e new_entity in
          (e'.facts ≡ entity_facts lower e) × (e'.semantic_triples ≡ entity_triples lower e)
    go none = (refl, refl)
    go (some j) =
        let h = configure_from_advanced_augmentation-parsed lower j new_entity in
        (ap (λ (x : Entity). x.facts) h, ap (λ (x : Entity). x.semantic_triples) h)
