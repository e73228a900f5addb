-- ===== src/Tests/Augmented.antt =====
-- The augmentation of an exchange at concrete inputs.
use Prim.Native.Nat.{max}
use memori.Prelude.{
  ℕ, ◌≡◌, refl, inl, inr, String, Option, none, some, List, [], ◌∷◌, map, All, ltb, if◌then◌else◌,
  arith, str_eq,
}
use memori.Exec.{Exec, Result, ok, err, other, quota}
use memori.Struct.{Part, TripleEntry, EntityJson, MemoriesJson, SemanticTriple}
use memori.Memory.Writer.{ConversationMessage}
use memori.Memory.DbWriter.{DbWriterRuntime}
use memori.Sqlite.Calls.{conversation_update}
use memori.Augment.Cloud.{post_cloud_augmentation}
use memori.Augment.Cloud.Posted.{Decides, post_cloud_augmentation-Decides}
use memori.Augment.Manager.{
  Manager, new_manager, started, enqueued, runtime_ready, run, handle_augmentation_result,
}
use memori.Augment.Manager.Quota.{quota_sticks}
use memori.Augment.Process.{Work, add_write, process_augmentations}
use memori.Augment.Process.Aligned.{Aligned, write_of, write_of-Aligned}
use memori.Augment.Process.Queued.{Queued, went_on, no_more, process_augmentations-Queued}
use memori.Tests.{calm, opened}

abbrev say : String → String → ConversationMessage
say role text = record { role = role; type = none; text = text }

-- Two failures and a success.
abbrev answers : ℕ → Result ℕ
answers n = if ltb n 2 then err other else ok 202

post_cloud_augmentation-Decides_example :
    Decides answers (max 1 5) (post_cloud_augmentation answers 5)
post_cloud_augmentation-Decides_example = post_cloud_augmentation-Decides answers 5

abbrev running : Manager
running = (run (started (some 1) ∷ runtime_ready ∷ enqueued ∷ []) new_manager).1

quota_sticks_example :
    let m' = handle_augmentation_result 0 (err quota) running in
    let (answers', m'') = run (started (some 1) ∷ enqueued ∷ []) m' in
    (m''.scheduled ≡ running.scheduled) × All (λ r. r ≡ err quota) answers'
quota_sticks_example = quota_sticks 0 (started (some 1) ∷ enqueued ∷ []) running

abbrev part : String → Option Part
part s = some (record { name = some s; type = some "t" })

abbrev liking : SemanticTriple
liking = record {
  subject_name = "ann";
  subject_type = "t";
  predicate = "likes";
  object_name = "tea";
  object_type = "t";
}

abbrev whole : TripleEntry
whole = record {
  content = none;
  subject = part "ann";
  predicate = some "likes";
  object = part "tea";
}

-- It has a text, but no predicate.
abbrev broken : TripleEntry
broken = record { content = some "x"; subject = none; predicate = none; object = none }

abbrev entity_of : List String → List TripleEntry → EntityJson
entity_of facts triples = record {
  facts = facts;
  fact_embeddings = [];
  semantic_triples = [];
  triples = triples;
}

abbrev answer_of : EntityJson → MemoriesJson
answer_of e = record { conversation = none; entity = some e; process = none }

abbrev vector : String → List ℕ
vector s = if str_eq s "x" then 1 ∷ [] else 2 ∷ []

abbrev embed : ℕ → List String → Option (List (List ℕ))
embed n texts = some (map vector texts)

write_of-Aligned_example :
    let w = write_of embed (λ s. s) (answer_of (entity_of ("x" ∷ []) (whole ∷ []))) in
    Aligned vector w.facts w.embeddings
write_of-Aligned_example =
    write_of-Aligned embed (λ s. s) (answer_of (entity_of ("x" ∷ []) (whole ∷ [])))
      (entity_of ("x" ∷ []) (whole ∷ [])) vector (λ n ts. refl) refl (inl (λ h. cc))

abbrev queue : DbWriterRuntime
queue = record { queue = some []; maxsize = 5; batch_size = 2 }

-- One schedules a write and fails, the other schedules another.
abbrev augmentations : List (Exec Work (Unit {0}))
augmentations =
    (λ w. (err other, (add_write (conversation_update 1 (some "a")) w).1))
    ∷ (add_write (conversation_update 2 (some "b")) ∷ [])

process_augmentations-Queued_example :
    Queued 9 queue []
      (process_augmentations calm 9 augmentations opened queue)
      none
      (conversation_update 1 (some "a") ∷ conversation_update 2 (some "b") ∷ [])
process_augmentations-Queued_example =
    process_augmentations-Queued calm 9 augmentations opened queue [] none
      (record {
        conn = opened;
        writes = conversation_update 1 (some "a") ∷ conversation_update 2 (some "b") ∷ [];
      })
      (went_on (λ h. cc) (went_on (λ h. cc) no_more)) refl (inr (omega arith))
