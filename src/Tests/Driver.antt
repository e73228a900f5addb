-- ===== src/Tests/Driver.antt =====
-- Runs of the driver.
use memori.Prelude.{ℕ, ◌+◌, String, ◌≡◌, refl, none, some, List, [], ◌∷◌, map}
use memori.Exec.{ok}
use memori.Sql.{Row, insert, insert_or_ignore}
use memori.Schema.{FactRow}
use memori.Conn.{Conn, execute, commit, get_or_create}
use memori.Conn.Quiet.{Both}
use memori.Struct.{SemanticTriple}
use memori.Sqlite.Conversation
use memori.Sqlite.EntityFact
use memori.Sqlite.Calls.{
  Call, entity_create, session_create, conversation_create, entity_fact_create, perform,
  connection_rollback, knowledge_graph_create, run_calls,
}
use memori.Sqlite.Keys.{IsKeyed}
use memori.Sqlite.Keys.Runs.{run_calls-IsKeyed}
use memori.Sqlite.Identity.{conversation_ignores_timeout}
use memori.Sqlite.EntityFact.Counts.{create_counts, times, hits}
use memori.Sqlite.EntityFact.Lookup.{get_facts_by_ids_order, Answers}
use memori.Sqlite.EntityFact.Freshest.{get_embeddings-Selected, Selected}
use memori.Tests.{calm, shaky, calm-IsQuiet, opened, opened-IsKeyed, learnt}

abbrev pub red_rose : SemanticTriple
red_rose = record {
  subject_name = "rose";
  subject_type = "plant";
  predicate = "is";
  object_name = "red";
  object_type = "colour";
}

abbrev pub some_calls : List Call
some_calls =
    entity_create "ann"
    ∷ entity_create "ann"
    ∷ entity_create "bob"
    ∷ connection_rollback
    ∷ entity_fact_create 1 (some ("ab" ∷ "cd" ∷ [])) none none
    ∷ knowledge_graph_create 1 (some (red_rose ∷ []))
    ∷ session_create "s" (some 1) none
    ∷ conversation_create 1 30
    ∷ []

run_calls-IsKeyed_example : Both IsKeyed (run_calls shaky some_calls opened)
run_calls-IsKeyed_example = run_calls-IsKeyed shaky some_calls opened opened-IsKeyed

abbrev first_id : ℕ
first_id = 1

abbrev talked : Conn
talked = run_calls calm (conversation_create 3 30 ∷ []) opened

-- A timeout of no minutes, long after.
conversation_ignores_timeout_example : first_id ≡ first_id
unfolding get_or_create execute commit insert_or_ignore insert run_calls perform Conversation.create
    Conversation.resume Conversation.last_activity Conversation.create_new
    Conversation.insert_conversation
conversation_ignores_timeout_example =
    conversation_ignores_timeout (record calm { now = λ n. 9999 }) 3 0 1 1 talked refl refl

create_counts_example :
    let (r, conn') = EntityFact.create calm 1 (some ("ab" ∷ "abc" ∷ "cd" ∷ [])) none none opened in
    (r ≡ ok tt)
    × (conn'.committed ≡ conn'.db)
    × ((e' : ℕ) (u : String)
        → times e' u conn'.committed
          ≡ times e' u opened.db + hits calm e' u 1 ("ab" ∷ "abc" ∷ "cd" ∷ []))
create_counts_example = create_counts calm 1 "ab" ("abc" ∷ "cd" ∷ []) none none opened calm-IsQuiet

get_facts_by_ids_order_example :
    Answers
      (EntityFact.get_facts_by_ids calm (2 ∷ 7 ∷ 1 ∷ 2 ∷ []) learnt).0
      (2 ∷ 7 ∷ 1 ∷ 2 ∷ [])
      learnt.db.entity_fact
get_facts_by_ids_order_example =
    get_facts_by_ids_order calm (2 ∷ 7 ∷ 1 ∷ 2 ∷ []) learnt calm-IsQuiet

get_embeddings-Selected_example :
    (rows : List (Row FactRow)) × ((EntityFact.get_embeddings calm 1 1 learnt).0
      ≡ ok (map EntityFact.to_embedding rows))
    × Selected 1 1 learnt.db rows
get_embeddings-Selected_example = get_embeddings-Selected calm 1 1 learnt calm-IsQuiet
