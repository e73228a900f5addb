-- ===== src/Memory/Writer.antt =====
-- memori/memory/_writer.py: class Writer, over the SQLite driver.
pub mod Once
use memori.Prelude.{
  ℕ, zero, suc, String, Bool, true, false, Option, none, some, List, [], ◌∷◌, ltb, ◌&&◌,
  if◌then◌else◌,
}
use memori.Exec.{Exc, operational, Exec, Result, ok, err, pure, for_each, ◌>>=◌, ◌>>◌}
use memori.Conn.{Env, Conn, commit, rollback}
use memori.Memory.Config.{Config, App, Cache, on_conn, ensure_ids}
use memori.Sqlite.Conversation

-- memori/memory/_conversation_messages.py
pub record ConversationMessage : Type 0 where
  pub role : String
  pub type : Option String
  pub text : String

abbrev pub max_retries : ℕ
max_retries = 3

-- `except _RETRYABLE_DB_ERRORS` and `"restart transaction" in str(e)`
abbrev pub is_retryable : Config → Exc → Bool
is_retryable config (operational restart) = config.has_sqlalchemy && restart
is_retryable config _ = false

module _ (env : Env) where
  abbrev pub write_message : ℕ → ConversationMessage → Exec Conn (Unit {0})
  write_message conversation_id m =
      Conversation.create_message env conversation_id m.role m.type m.text

  -- `flush()` and `commit()` of the adapter, if there is one; `flush` does nothing here
  unfoldable pub finish : Bool → Exec Conn (Unit {0})
  finish true = commit env
  finish false = pure tt

  unfoldable pub write_messages : Bool → ℕ → List ConversationMessage → Exec Conn (Unit {0})
  unfolding finish
  write_messages has_adapter conversation_id messages = do
    for_each messages (write_message conversation_id)
    finish has_adapter

  unfoldable pub execute_transaction : Config → List ConversationMessage → Exec App (Unit {0})
  execute_transaction config messages = do
    conversation_id ← ensure_ids env config
    on_conn (write_messages config.has_adapter conversation_id messages)

  unfoldable pub roll_back : Bool → Exec App (Unit {0})
  roll_back true = on_conn (rollback env)
  roll_back false = pure tt

  -- The rounds of `for attempt in range(max_retries)` that are left; `0 < k` is the test
  -- `attempt < max_retries - 1`.
  unfoldable pub attempts : Config → List ConversationMessage → ℕ → Exec App (Unit {0})
  attempts config messages zero app = (ok tt, app)
  attempts config messages (suc k) app =
      let (r, app') = execute_transaction config messages app in
      elim r [
        | ok _ ↦ (ok tt, app')
        | err e ↦
            if is_retryable config e && ltb 0 k
            then (roll_back config.has_adapter >>= λ _. attempts config messages k) app'
            else (err e, app')
      ]

  unfoldable pub execute : Config → List ConversationMessage → ℕ → Exec App (Unit {0})
  execute config messages retries =
      if config.has_storage then attempts config messages retries else pure tt
