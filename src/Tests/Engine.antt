-- ===== src/Tests/Engine.antt =====
-- The Rust engine's batches and the making of the engine at concrete inputs.
use memori.Prelude.{ℕ, ◌*◌, ◌≤◌, ◌<◌, ◌≡◌, refl, ◌⊎◌, none, some, length, ◌==◌, str_eq, arith}
use memori.Exec.{ok}
use memori.Conn.{get_or_create}
use memori.Conn.Quiet.{Both}
use memori.Json.{null, text, array, object, Items, nil, cons, Fields, end, field, items}
use memori.Sqlite.Keys.{IsKeyed}
use memori.Sql.{insert_or_ignore, upsert}
use memori.Utils.{generate_uniq, normal_form}
use memori.Sqlite.Entity
use memori.Sqlite.Entity.{insert_entity}
use memori.Sqlite.EntityFact
use memori.Sqlite.EntityFact.{create_facts, create_fact, upsert_fact, insert_mention}
use memori.Native.Values.{Values}
use memori.Native.Batch.{Services, apply_op, write_batch}
use memori.Native.Batch.Keys.{write_batch-IsKeyed}
use memori.Native.Batch.Written.{accepted, write_batch-accepted}
use memori.Native.Engine.{
  Outcome, returned, no_engine, no_error, locked, creating, done, at, Adapter, new_adapter, Reach,
  here, next, miss_engine, miss_error, acquire, enter_create, create_engine,
}
use memori.Native.Engine.Shared.{active_engine_shared}
use memori.Native.Engine.Ends.{Run, begun, moved, AllDone, Moves, active_engine_ends}
use memori.Tests.{shaky, calm, opened, opened-IsKeyed}

-- The numbers are ints, and a text of digits is "4".
abbrev values : Values
values = record {
  repr = λ v. "?";
  strip = λ s. s;
  is_digit = λ s. str_eq s "4";
  int_of = λ s. some 4;
  int_number = λ n. some n;
  is_zero = λ n. n == 0;
  float_of = λ v. none;
}

-- Two operations that can be done, and two that cannot.
abbrev batch : Fields
batch =
    field "ops"
      (array (
        cons
          (object (
            field "op_type" (text "entity_fact.create") (
              field "payload"
                (object (
                  field "entity_id" (text "ann") (
                    field "facts" (array (cons (text "ab") (cons null nil)))
                      (field "conversation_id" (text "4") end))))
                end)))
          (cons null (
            cons (object (field "op_type" (text "drop") end)) (
              cons
                (object (
                  field "op_type" (text "upsert_fact") (
                    field "payload"
                      (object (field "entity_id" (text "ann") (field "content" (text "cd") end)))
                      end)))
                nil)))))
      end

abbrev ops : Items
ops = elim batch [ end ↦ nil | field k v rest ↦ elim v [ array xs ↦ xs | _ ↦ nil ] ]

abbrev services : Services
services = record {
  loads = λ s. some (object batch);
  embeddings_model = none;
  core_embed_texts = none;
  embed_texts = λ facts model. none;
}

write_batch-IsKeyed_example : Both IsKeyed (write_batch shaky values services "{}" opened).1
write_batch-IsKeyed_example = write_batch-IsKeyed shaky values services "{}" opened opened-IsKeyed

write_batch-accepted_example : (2 ≡ accepted values ops) × (2 ≤ length (items ops))
unfolding write_batch apply_op Entity.create get_or_create insert_entity insert_or_ignore
    EntityFact.create create_facts create_fact generate_uniq upsert_fact upsert normal_form
    insert_mention
write_batch-accepted_example =
    write_batch-accepted calm values services "{}" batch ops 2 opened refl refl two
  where
    two : (write_batch calm values services "{}" opened).0 ≡ ok 2
    two = refl

-- Thread 3 has made the engine.
abbrev made : Adapter
made = record {
  engine = some 7;
  engine_error = none;
  lock = none;
  place =
      at (at (at (at (at new_adapter.place 3 no_engine) 3 no_error) 3 locked) 3 creating) 3
        (done (returned 7));
  creations = 1;
}

abbrev made_reached : Reach made
made_reached =
    next
      (next
        (next (next (next here (miss_engine 3 refl refl)) (miss_error 3 refl refl))
          (acquire 3 refl refl))
        (enter_create 3 refl refl refl))
      (create_engine 3 7 refl)

active_engine_shared_example :
    (made.creations ≤ 1)
    × ((t u : ℕ) (a b : Outcome) → made.place t ≡ done a → made.place u ≡ done b → a ≡ b)
active_engine_shared_example = active_engine_shared made made_reached

three : 3 < 4
three = omega arith

abbrev made_run : Run 4 5 made
made_run =
    moved
      (moved
        (moved (moved (moved begun (miss_engine 3 refl refl) three) (miss_error 3 refl refl) three)
          (acquire 3 refl refl) three)
        (enter_create 3 refl refl refl) three)
      (create_engine 3 7 refl) three

active_engine_ends_example : (5 ≤ 5 * 4) × (AllDone 4 made ⊎ Moves made (λ u. u < 4))
active_engine_ends_example = active_engine_ends 4 5 made made_run
