-- ===== src/Memory/Manager.antt =====
-- memori/memory/_manager.py: class Manager. The API is outside: `post n` is the status, or the
-- exception, of the `n`-th request.
pub mod Posts
use Prim.Native.Nat.{max}
use memori.Prelude.{
  ℕ, zero, suc, String, Bool, true, false, Option, none, some, List, [], ◌∷◌, filter, not, ltb,
  ◌==◌, str_eq, if◌then◌else◌,
}
use memori.Exec.{Exc, api_error, Exec, Result, ok, err, pure, for_each, ◌>>=◌, ◌>>◌}
use memori.Conn.{Env, Conn}
use memori.Memory.Config.{Config, App, on_conn, ensure_ids}
use memori.Memory.Writer
use memori.Memory.Writer.{ConversationMessage, write_messages, max_retries}

-- `message.get("role") != "system"`
abbrev pub is_kept : ConversationMessage → Bool
is_kept m = not (str_eq m.role "system")

-- The manager's state, and how many requests it has sent.
pub record Cloud : Type 0 where
  pub app : App
  pub posts : ℕ

abbrev pub Api : Type 0
Api = ℕ → Result ℕ

module _ (env : Env) where
  -- `_persist_cloud_messages_locally`, of messages that have a role and a text
  unfoldable pub persist_cloud_messages_locally :
      Config → List ConversationMessage → Exec App (Unit {0})
  persist_cloud_messages_locally config messages app =
      if config.has_storage
      then (ensure_ids env config >>= λ conversation_id.
            on_conn (write_messages env config.has_adapter conversation_id messages))
          app
      else (ok tt, app)

-- What a round leaves, after the local copy and after the request.
abbrev after_local : ℕ → Result (Unit {0}) × App → Result ℕ × Cloud
after_local n (ok _, app) = (ok 201, record { app = app; posts = n })
after_local n (err e, app) = (err e, record { app = app; posts = n })

module _ (env : Env) (post : Api) (config : Config) (messages : List ConversationMessage) where
  abbrev after_post : Result ℕ → Cloud → Result ℕ × Cloud
  after_post (ok status) c =
      if status == 201
      then after_local (suc c.posts) (persist_cloud_messages_locally env config messages c.app)
      else (ok status, record c { posts = suc c.posts })
  after_post (err e) c = (err e, record c { posts = suc c.posts })

  -- One round: `api.post`, and on 201 the local copy, both under the `except`.
  unfoldable pub round : Cloud → Result ℕ × Cloud
  round c = after_post (post c.posts) c

  -- `raise last_error`, or the error for the last status
  abbrev pub give_up : Option Exc → Exc
  give_up none = api_error
  give_up (some e) = e

  -- The rounds that are left; `last_error` is `None` after a status other than 201.
  unfoldable pub rounds : Option Exc → ℕ → Exec Cloud (Unit {0})
  rounds last_error zero c = (err (give_up last_error), c)
  rounds last_error (suc k) c =
      let (r, c') = round c in
      elim r [
        | ok status ↦ if status == 201 then (ok tt, c') else rounds none k c'
        | err e ↦ rounds (some e) k c'
      ]

  -- `attempts = max(1, request_num_backoff)`
  unfoldable pub handle_cloud : Exec Cloud (Unit {0})
  handle_cloud c = rounds none (max 1 config.request_num_backoff) c

-- `Writer(self.config).execute(…)`
abbrev pub on_app : {A : Type 0} → Exec App A → Exec Cloud A
on_app m c = let (r, app') = m c.app in (r, record c { app = app' })

unfoldable pub execute : Env → Api → Config → List ConversationMessage → Exec Cloud (Unit {0})
execute env post config messages =
    if config.cloud
    then handle_cloud env post config (filter is_kept messages)
    else on_app (Writer.execute env config (filter is_kept messages) max_retries)
