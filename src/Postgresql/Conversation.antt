-- ===== src/Postgresql/Conversation.antt =====
-- classes Conversation, ConversationMessage and ConversationMessages
use memori.Prelude.{ℕ, String, Bool, Option, none, some, List, ◌||◌, any, map, if◌then◌else◌}
use memori.Exec.{Exec, pure, ◌>>=◌, ◌>>◌}
use memori.Sql.{Row, columns, update_id, select_id, select}
use memori.Schema.{Db, ConversationRow, MessageRow}
use memori.Conn.{Env}
use memori.Foreign.{conversation_fits, message_fits}
use memori.Postgresql.Session.{
  Session, statement, get_or_create, write, write_checked, query, commit,
}
use memori.Sqlite.Conversation.{
  existing, find, is_recent, insert_conversation, insert_message, of_session, of_conversation,
  to_message, Message,
}

-- The row is there, or its session is.
abbrev pub conversation_ready : ℕ → Db → Bool
conversation_ready session_id db =
    any (columns (of_session session_id)) db.conversation.rows || conversation_fits session_id db

-- from `uuid = str(uuid4())` on
unfoldable pub create_new : Env → ℕ → Exec Session ℕ
create_new env session_id =
    get_or_create env (conversation_ready session_id) (insert_conversation session_id)
      (find session_id)

-- EXTRACT(EPOCH FROM (CURRENT_TIMESTAMP - last)) / 60 <= timeout_minutes is SQLite's test.
unfoldable pub resume : Env → ℕ → ℕ → Option (ℕ × ℕ) → Exec Session ℕ
unfolding create_new
resume env session_id timeout_minutes none = create_new env session_id
resume env session_id timeout_minutes (some (i, last)) = do
  recent ← statement env (λ s db. (some (is_recent s.now last timeout_minutes), db))
  if recent then pure i else create_new env session_id

unfoldable pub create : Env → ℕ → ℕ → Exec Session ℕ
unfolding resume
create env session_id timeout_minutes = do
  found ← query env (existing session_id)
  resume env session_id timeout_minutes found

unfoldable pub set_summary : ℕ → String → Db → Db
set_summary id text db = record db {
  conversation = update_id id (λ c. record c { summary = some text }) db.conversation;
}

unfoldable pub update : Env → ℕ → Option String → Exec Session (Unit {0})
update env id none = pure tt
update env id (some summary) = do write env (λ _. set_summary id summary); commit env

unfoldable pub read : Env → ℕ → Exec Session (Option (Row ConversationRow))
read env id = query env (λ db. select_id id db.conversation)

unfoldable pub read_id_by_session_id : Env → ℕ → Exec Session (Option ℕ)
read_id_by_session_id env session_id = query env (find session_id)

-- `ConversationMessage.create`; it does not commit
unfoldable pub create_message : Env → ℕ → String → Option String → String → Exec Session (Unit {0})
create_message env conversation_id role type content =
    write_checked env (message_fits conversation_id)
      (insert_message conversation_id role type content)

-- `ConversationMessages.read`, without ORDER BY: the server gives the rows in any order, `scan`
unfoldable pub read_messages :
    Env → (List (Row MessageRow) → List (Row MessageRow)) → ℕ → Exec Session (List Message)
read_messages env scan conversation_id =
    query env (λ db.
      map to_message (scan (select (of_conversation conversation_id) db.conversation_message)))
