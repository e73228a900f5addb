-- ===== src/Mysql/Conversation.antt =====
-- classes Conversation, ConversationMessage and ConversationMessages
use memori.Prelude.{
  ℕ, ◌+◌, ◌-◌, String, Bool, false, Option, none, some, List, map, leb, str_eq, if◌then◌else◌,
}
use Prim.Native.Nat.{◌/◌}
use memori.Exec.{Exec, pure, ◌>>=◌, ◌>>◌}
use memori.Sql.{Row, update_id, select_id, select}
use memori.Schema.{Db, ConversationRow, MessageRow}
use memori.Conn.{Env, Conn, Stamp, get_or_create, execute, write, query, commit}
use memori.Server.{write_checked}
use memori.Foreign.{conversation_fits, message_fits}
use memori.Sqlite.Conversation.{
  existing, find, insert_conversation, insert_message, of_conversation, to_message, Message,
}

-- TIMESTAMPDIFF(MINUTE, last, CURRENT_TIMESTAMP) <= timeout_minutes, in whole minutes; it is
-- negative before `last`
abbrev pub is_recent : ℕ → ℕ → ℕ → Bool
is_recent now last timeout_minutes = leb ((now - last) / 60) timeout_minutes

-- INSERT IGNORE, also of a session that is not there
unfoldable pub insert_conversation_ignore : ℕ → Stamp → Db → Db
insert_conversation_ignore session_id s db =
    if conversation_fits session_id db then insert_conversation session_id s db else record db {
      conversation = record db.conversation { next_id = db.conversation.next_id + s.gap };
    }

-- from `uuid = uuid4()` on
unfoldable pub create_new : Env → ℕ → Exec Conn ℕ
create_new env session_id =
    get_or_create env (insert_conversation_ignore session_id) (find session_id)

unfoldable pub resume : Env → ℕ → ℕ → Option (ℕ × ℕ) → Exec Conn ℕ
unfolding create_new
resume env session_id timeout_minutes none = create_new env session_id
resume env session_id timeout_minutes (some (i, last)) = do
  recent ← execute env (λ s db. (is_recent s.now last timeout_minutes, db))
  if recent then pure i else create_new env session_id

unfoldable pub create : Env → ℕ → ℕ → Exec Conn ℕ
unfolding resume
create env session_id timeout_minutes = do
  found ← query env (existing session_id)
  resume env session_id timeout_minutes found

-- `summary == text`
abbrev pub is_text : Option String → String → Bool
is_text none text = false
is_text (some s) text = str_eq s text

-- SET summary = …; ON UPDATE sets date_updated if that is a change
abbrev pub summarise : String → ℕ → ConversationRow → ConversationRow
summarise text now c =
    if is_text c.summary text then c else record c { summary = some text; date_updated = some now }

unfoldable pub set_summary : ℕ → String → Stamp → Db → Db
set_summary id text s db = record db {
  conversation = update_id id (summarise text s.now) db.conversation;
}

unfoldable pub update : Env → ℕ → Option String → Exec Conn (Unit {0})
update env id none = pure tt
update env id (some summary) = do write env (set_summary id summary); commit env

unfoldable pub read : Env → ℕ → Exec Conn (Option (Row ConversationRow))
read env id = query env (λ db. select_id id db.conversation)

unfoldable pub read_id_by_session_id : Env → ℕ → Exec Conn (Option ℕ)
read_id_by_session_id env session_id = query env (find session_id)

-- `ConversationMessage.create`; it does not commit
unfoldable pub create_message : Env → ℕ → String → Option String → String → Exec Conn (Unit {0})
create_message env conversation_id role type content =
    write_checked env (message_fits conversation_id)
      (insert_message conversation_id role type content)

-- `ConversationMessages.read`, without ORDER BY: the server gives the rows in any order, `scan`
unfoldable pub read_messages :
    Env → (List (Row MessageRow) → List (Row MessageRow)) → ℕ → Exec Conn (List Message)
read_messages env scan conversation_id =
    query env (λ db.
      map to_message (scan (select (of_conversation conversation_id) db.conversation_message)))
