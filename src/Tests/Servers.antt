-- ===== src/Tests/Servers.antt =====
-- Runs of the drivers of MySQL and PostgreSQL.
use memori.Prelude.{true, false, ◌≡◌, refl, none, some, All, List, [], ◌∷◌}
use memori.Sqlite.Calls.{
  Call, entity_create, process_attribute_create, message_create, entity_fact_create,
  knowledge_graph_create,
}
use memori.Postgresql.Session.{Session}
use memori.Postgresql.Calls.{run_postgresql}
use memori.Mysql.Calls as MysqlCalls
use memori.Mysql.Calls.{run_mysql}
use memori.Mysql.Accounts.{create_entity}
use memori.Sqlite.Entity.{insert_entity}
use memori.Sqlite.KnowledgeGraph.{insert_subject, insert_predicate, insert_object}
use memori.Server.{write_checked}
use memori.Mysql.KnowledgeGraph
use memori.Mysql.KnowledgeGraph.Linked.{create-Linked}
use memori.Mysql.KnowledgeGraph.Links.{Linked}
use memori.Struct.{SemanticTriple}
use memori.Conn.Quiet.{Both}
use memori.Postgresql.Aborted.{run_postgresql-aborted}
use memori.Postgresql.Pending.{run_postgresql-pending}
use memori.Utils.{generate_uniq, generate_uniq_text, normal_form}
use memori.Utils.Uniq.{generate_uniq_text-generate_uniq}
use memori.Conn.{Conn, execute, commit, get_or_create}
use memori.Sql.{insert, insert_or_ignore, upsert}
use memori.Sqlite.Session as SqliteSession
use memori.Sqlite.Session.{insert_session}
use memori.Sqlite.Calls as SqliteCalls
use memori.Sqlite.Calls.{run_calls, session_create, conversation_create}
use memori.Postgresql.Calls.{perform}
use memori.Postgresql.Refines.{session_of, lifted}
use memori.Postgresql.Refines.Calls.{perform-refines}
use memori.Tests.{calm-IsQuiet, calm, opened}
use memori.Tests.Driver.{red_rose}

abbrev started : Session
started = record { conn = opened; aborted = false }

abbrev failed : Session
failed = record started { aborted = true }

abbrev refused_calls : List Call
refused_calls =
    entity_create "ann"
    ∷ entity_fact_create 1 (some ("ab" ∷ [])) none (some 2)
    ∷ knowledge_graph_create 1 (some (red_rose ∷ []))
    ∷ []

run_postgresql-aborted_example : run_postgresql calm refused_calls failed ≡ failed
run_postgresql-aborted_example =
    run_postgresql-aborted calm refused_calls failed refl (refl, (refl, (refl, tt)))

abbrev storing_calls : List Call
storing_calls =
    entity_fact_create 1 (some ("ab" ∷ "cd" ∷ [])) none none
    ∷ process_attribute_create 1 (some ("old" ∷ []))
    ∷ message_create 1 "user" none "hello"
    ∷ []

-- Ann is the entity 1.
abbrev joined : Session
joined = run_postgresql calm (entity_create "ann" ∷ []) started

run_postgresql-pending_example :
    (run_postgresql calm storing_calls joined).conn.committed ≡ joined.conn.committed
run_postgresql-pending_example =
    run_postgresql-pending calm storing_calls joined (refl, (refl, (refl, tt)))

-- A connection with a session, the first.
abbrev met : Conn
met = run_calls calm (session_create "s" none none ∷ []) opened

generate_uniq_text-generate_uniq_example :
    generate_uniq_text calm "ab" ≡ generate_uniq calm ("ab" ∷ [])
generate_uniq_text-generate_uniq_example = generate_uniq_text-generate_uniq calm "ab"

perform-refines_example :
    perform calm (conversation_create 1 30) (session_of met)
    ≡ lifted (SqliteCalls.perform calm (conversation_create 1 30) met)
perform-refines_example = perform-refines calm (conversation_create 1 30) met calm-IsQuiet (
    unfold run_calls SqliteCalls.perform SqliteSession.create get_or_create execute commit
      insert_session insert_or_ignore insert in
    refl)

abbrev two_triples : List SemanticTriple
two_triples = red_rose ∷ record red_rose { object_name = "white" } ∷ []

-- Ann is the entity 1.
abbrev with_ann : Conn
with_ann = run_mysql calm (entity_create "ann" ∷ []) opened

create-Linked_example :
    Both
      (λ db. All (λ t. Linked calm 1 t db) two_triples)
      (KnowledgeGraph.create calm 1 (some two_triples) with_ann).1
unfolding run_mysql KnowledgeGraph.create KnowledgeGraph.create_triple KnowledgeGraph.get_subject
    KnowledgeGraph.get_predicate KnowledgeGraph.get_object KnowledgeGraph.upsert_edge generate_uniq
    normal_form get_or_create execute commit insert_or_ignore insert upsert MysqlCalls.perform
    create_entity insert_entity insert_subject insert_predicate insert_object write_checked
create-Linked_example = create-Linked calm 1 two_triples with_ann refl
