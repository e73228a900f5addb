-- ===== src/Lib.antt =====
-- Memori: the memory of conversations that an LLM application keeps in a database.
--
-- The program and its model. An application's messages go to memory/_manager.py, which sends them
-- to the cloud or gives them to memory/_writer.py; both find the ids of the entity, the process,
-- the session and the conversation, keep them in the cache of _config.py, and store the messages
-- with a driver of storage/drivers. memory/recall.py searches the stored facts, ranked by
-- search/_core.py, and deletes an entity's memories; with the cloud it reads what a service answers.
-- storage/_builder.py brings the tables up to date. memory/augmentation sends an exchange to a service
-- and queues what memory/_struct.py reads of its answer; with the Rust engine, native/_adapter.py
-- does the writes that the engine asks for. All paths are of memori/ in the Python package.
--
-- - Prelude: shared names, Boolean tests, lists over native numbers (Prelude/Lists), a stable sort
--   (Prelude/Sort).
-- - Exec: actions that change a state and may raise; how they keep an invariant (Exec/Preserves)
--   and what holds when they return (Exec/Returns, Exec/Ensures).
-- - Sql: what an SQL statement does to one table. Schema: the tables of
--   storage/migrations/_sqlite.py, a record for each.
-- - Conn: a connection as the committed database, the database that the open transaction sees, and
--   the number of statements executed. Each statement may fail: `Env` says which, and what the
--   clock, uuid4, SHA-256, `str.lower` and `struct.pack` give. Conn/Quiet: runs where none fails.
-- - Utils: `generate_uniq` of _utils.py; Utils/Uniq: what it makes of a text in place of a list.
-- - Sqlite: the classes of storage/drivers/sqlite/_driver.py, a module for each (ProcessAttribute is
--   in Sqlite/Process, ConversationMessage(s) in Sqlite/Conversation). Sqlite/Calls has the writing
--   methods as values and runs of them; Sqlite/Invariant, Sqlite/Keys and Sqlite/Identity are about
--   such runs.
-- - Foreign: the foreign keys of storage/migrations, which MySQL and PostgreSQL enforce: what a row
--   must refer to and what is deleted with it. Server: statements that check foreign keys, and
--   counters of ids that are not part of a transaction.
-- - Mysql: storage/drivers/mysql/_driver.py; Entity, Process, ProcessAttribute and Session are in
--   Mysql/Accounts, and what is stored of triples in Mysql/KnowledgeGraph/Linked. Postgresql:
--   storage/drivers/postgresql/_driver.py in the same way, over a session whose transaction a failed
--   statement aborts (Postgresql/Session). Both have runs of the calls of Sqlite/Calls;
--   Postgresql/Refines compares calls with those of SQLite's driver.
-- - Memory: Config (the cache and `_ensure_cached_id`), Writer, Manager, Recall, and DbWriter (the
--   queue of memory/augmentation/_db_writer.py and a batch's run over one connection).
-- - CloudRecall: the part of memory/recall.py that reads the cloud's answers. CloudRecall/Attached and
--   CloudRecall/Parsed: what a search returns; CloudRecall/Summaries: the summaries of facts.
-- - Augment: memory/augmentation. Augment/Select and Augment/Process: the messages that are sent and
--   what is made of an answer (augmentations/memori/_augmentation.py), and the run of the
--   augmentations (`_process_augmentations` of _manager.py); Augment/Manager: the rest of _manager.py,
--   as a machine whose events are calls, results of tasks and the start of the runtime;
--   Augment/Cloud: _handler.py.
-- - Native: native/_adapter.py. Native/Values reads the engine's JSON, Native/Batch does its
--   operations over SQLite's driver, Native/Engine is a step relation of threads that share one engine.
-- - Search: memori/search; the float operations, the similarity search and the lexical scores are
--   parameters, as they are of the code.
-- - Llm: the history of a conversation that is put before a request
--   (llm/pipelines/conversation_injection.py), for the clients that llm/_utils.py tells apart, and what
--   the OpenAI adapter and llm/_base.py leave of the request to be stored (Llm/Query); Llm/History:
--   where that history is read from. Llm/UserQuery: llm/helpers/query_extraction.py.
--   Llm/RecallInjection: llm/pipelines/recall_injection.py, with where the text of recalled facts goes
--   (Llm/RecallInjection/Placed, also of llm/helpers/google_system_instruction.py).
-- - Network: the retry loop and the answers of _network.py. Embeddings: embeddings/_chunking.py.
--   Json: what `json.loads` gives, with `merge_chunk` of _utils.py over it (Utils/Merge).
-- - Storage: Builder, and `connection_context` (Storage/Connection). Struct: memory/_struct.py.
-- - Tests: runs at concrete inputs.
--
-- Choices. Ids are numbers from 1 that are never given twice (AUTOINCREMENT), of which a statement
-- that a constraint turns away may use some up. Dates are whole seconds, of
-- which the databases also keep fractions. Two uuid4 are taken to differ, so their uniqueness is not
-- modelled. Foreign keys are not enforced: SQLite leaves them off unless
-- a connection turns them on, and none does. MySQL and PostgreSQL enforce them; the ids that one of
-- their transactions draws are not given back by its rollback, so a rolled-back table keeps the larger
-- counter. Lengths of columns and collations are left out. A query without ORDER BY gives its rows in
-- an order that is a parameter. `flush` and `sleep` change nothing that is modelled.
-- A message that an SDK builds is a parameter, and so are the tokenizer and the responses of servers.
-- The retries of the writer, the manager and the recall are counted loops, which need no fuel; the
-- builder's `while True` runs on fuel, one more than there are revisions, which is enough since
-- each round but the last finds one; the request loop runs on six rounds of fuel, one more than the
-- retries, and the chunks of a text on one more than its tokens. The loop of requests of
-- Augment/Cloud is counted, too. A number in JSON is a code, which a parameter reads as an int or a
-- float; an int that stands for an id is taken to be no less than 0. In Native/Engine the creation of
-- an engine ends with an engine or an error that is not determined.
--
-- Not modelled: the drivers of Oracle, MongoDB, OceanBase and TiDB, the storage registry, the
-- clients, wrappers and streams of LLM providers and most of their adapters (llm), instructions
-- that are objects of the Google client, the models that embed texts, the metadata of requests, the
-- event loop and the threads of memory/augmentation, the Rust engine itself, and the command line:
-- third-party calls, input and output, or left out for their size.
pub mod Prelude
pub mod Exec
pub mod Sql
pub mod Schema
pub mod Conn
pub mod Foreign
pub mod Json
pub mod Native
pub mod Network
pub mod Embeddings
pub mod Llm
pub mod Utils
pub mod Struct
pub mod Sqlite
pub mod Server
pub mod Mysql
pub mod Postgresql
pub mod Memory
pub mod CloudRecall
pub mod Augment
pub mod Search
pub mod Storage
pub mod Tests
