-- ===== src/Sqlite/Conversation.antt =====
-- classes Conversation, ConversationMessage and ConversationMessages
use Prim.Native.Nat.{max}
use memori.Prelude.{
  ℕ, ◌+◌, ◌*◌, String, Bool, Option, none, some, List, [], ◌∷◌, map, leb, ◌==◌, if◌then◌else◌,
}
use memori.Exec.{Exec, pure, ◌>>=◌, ◌>>◌}
use memori.Sql.{Row, insert, insert_or_ignore, update_id, select_one, select_id, select, id_of}
use memori.Schema.{Db, ConversationRow, MessageRow}
use memori.Conn.{get_or_create, Env, Conn, Stamp, execute, write, query, commit}

-- UNIQUE (session_id), and WHERE session_id = ?
abbrev pub of_session : ℕ → ConversationRow → Bool
of_session session_id r = session_id == r.session_id

-- WHERE conversation_id = ?
abbrev pub of_conversation : ℕ → MessageRow → Bool
of_conversation conversation_id m = conversation_id == m.conversation_id

-- MAX(m.date_created), from a start
abbrev latest : ℕ → List (Row MessageRow) → ℕ
latest t [] = t
latest t ((_, m) ∷ ms) = latest (max t m.date_created) ms

-- COALESCE(MAX(m.date_created), c.date_created) over the messages that join
unfoldable pub last_activity : ConversationRow → List (Row MessageRow) → ℕ
last_activity c [] = c.date_created
last_activity c ((_, m) ∷ ms) = latest m.date_created ms

abbrev pub activity_of : Db → Option (Row ConversationRow) → Option (ℕ × ℕ)
activity_of db none = none
activity_of db (some (i, c)) =
    some (i, last_activity c (select (of_conversation i) db.conversation_message))

-- the query of `existing`: the conversation's id and its last activity
abbrev pub existing : ℕ → Db → Option (ℕ × ℕ)
existing session_id db = activity_of db (select_one (of_session session_id) db.conversation)

-- (julianday('now') - julianday(last)) * 24 * 60 <= timeout_minutes, in whole seconds
abbrev pub is_recent : ℕ → ℕ → ℕ → Bool
is_recent now last timeout_minutes = leb now (last + timeout_minutes * 60)

unfoldable pub insert_conversation : ℕ → Stamp → Db → Db
insert_conversation session_id s db = record db {
  conversation =
      insert_or_ignore (of_session session_id) s.gap
        (record {
          uuid = s.uuid;
          session_id = session_id;
          summary = none;
          date_created = s.now;
          date_updated = none;
        })
        db.conversation;
}

-- SELECT id … WHERE session_id = ?
abbrev pub find : ℕ → Db → Option ℕ
find session_id db = id_of (select_one (of_session session_id) db.conversation)

-- from `uuid = str(uuid4())` on
unfoldable pub create_new : Env → ℕ → Exec Conn ℕ
create_new env session_id = get_or_create env (insert_conversation session_id) (find session_id)

unfoldable pub resume : Env → ℕ → ℕ → Option (ℕ × ℕ) → Exec Conn ℕ
unfolding create_new
resume env session_id timeout_minutes none = create_new env session_id
resume env session_id timeout_minutes (some (i, last)) = do
  recent ← execute env (λ s db. (is_recent s.now last timeout_minutes, db))
  if recent then pure i else create_new env session_id

unfoldable pub create : Env → ℕ → ℕ → Exec Conn ℕ
unfolding resume
create env session_id timeout_minutes = do
  found ← query env (existing session_id)
  resume env session_id timeout_minutes found

unfoldable pub update : Env → ℕ → Option String → Exec Conn (Unit {0})
update env id none = pure tt
update env id (some summary) = do
  write env (λ _ db. record db {
    conversation = update_id id (λ c. record c { summary = some summary }) db.conversation;
  })
  commit env

unfoldable pub read : Env → ℕ → Exec Conn (Option (Row ConversationRow))
read env id = query env (λ db. select_id id db.conversation)

unfoldable pub read_id_by_session_id : Env → ℕ → Exec Conn (Option ℕ)
read_id_by_session_id env session_id = query env (find session_id)

unfoldable pub insert_message : ℕ → String → Option String → String → Stamp → Db → Db
insert_message conversation_id role type content s db = record db {
  conversation_message =
      insert
        (record {
          uuid = s.uuid;
          conversation_id = conversation_id;
          role = role;
          type = type;
          content = content;
          date_created = s.now;
          date_updated = none;
        })
        db.conversation_message;
}

-- `ConversationMessage.create`; it does not commit
unfoldable pub create_message : Env → ℕ → String → Option String → String → Exec Conn (Unit {0})
create_message env conversation_id role type content =
    write env (insert_message conversation_id role type content)

pub record Message : Type 0 where
  pub content : String
  pub role : String

abbrev pub to_message : Row MessageRow → Message
to_message (_, m) = record { content = m.content; role = m.role }

-- `ConversationMessages.read`; the rows stand in the order of their ids
unfoldable pub read_messages : Env → ℕ → Exec Conn (List Message)
read_messages env conversation_id =
    query env
      (λ db. map to_message (select (of_conversation conversation_id) db.conversation_message))
