-- ===== src/Memory/Writer/Once.antt =====
-- A write that returns has stored each message of the payload once, however often it was retried.
use mathlib.Core.List.{append_assoc, append-nil, map-append}
use memori.Prelude.{
  ℕ, zero, suc, ◌<◌, String, ◌≡◌, refl, sym, ◌∙◌, ap, subst, Bool, true, Option, some, List, [],
  ◌∷◌, ◌++◌, map, arith, Option-cases, Bool-cases, inl, inr, ltb, ◌&&◌, if◌then◌else◌,
}
use memori.Sql.{Table, Row, insert}
use memori.Exec.{Result, ok, err, for_each, continue, ◌>>=◌}
use memori.Schema.{Db, MessageRow}
use memori.Conn.{Env, Conn, Stamp, stamp, execute, commit, rollback}
use memori.Conn.Quiet.{Both}
use memori.Memory.Config.{Config, App, ensure_ids, on_conn}
use memori.Memory.Config.Kept.{Messages, ensure_ids-keeps, ensure_ids-IsCached}
use memori.Memory.Writer
use memori.Memory.Writer.{
  ConversationMessage, is_retryable, write_message, finish, write_messages, execute_transaction,
  roll_back, attempts,
}
use memori.Sqlite.Conversation.{create_message, insert_message}

and_ltb : (b : Bool) (k : ℕ) → (b && ltb 0 k) ≡ true → 0 < k
and_ltb b k h = ground arith

-- What a message row says.
abbrev pub Sent : Type 0
Sent = ℕ × String × Option String × String

abbrev row_sent : Row MessageRow → Sent
row_sent (_, m) = (m.conversation_id, m.role, m.type, m.content)

abbrev pub sent_of : Table MessageRow → List Sent
sent_of t = map row_sent t.rows

-- What the row of a payload's message has to say, in the conversation `i`.
abbrev pub as_sent : ℕ → ConversationMessage → Sent
as_sent i m = (i, m.role, m.type, m.text)

-- The messages are committed as in `t`, and the open transaction has `done` more.
pub record Pending (t : Table MessageRow) (done : List Sent) (c : Conn) : Type 0 where
  pub committed : c.committed.conversation_message ≡ t
  pub open_part : sent_of c.db.conversation_message ≡ sent_of t ++ done

-- `done` is where a run through `all` stopped.
pub record Stopped (t : Table MessageRow) (all : List Sent) (c : Conn) : Type 0 where
  pub done : List Sent
  pub rest : List Sent
  pub parts : done ++ rest ≡ all
  pub pending : Pending t done c

module _ (t : Table MessageRow) (env : Env) (i : ℕ) where
  sent_of-insert_message :
      (m : ConversationMessage) (s : Stamp) (db : Db)
      → sent_of (insert_message i m.role m.type m.text s db).conversation_message
        ≡ sent_of db.conversation_message ++ as_sent i m ∷ []
  unfolding insert_message insert
  sent_of-insert_message m s db = map-append row_sent db.conversation_message.rows _

  abbrev Wrote : List Sent → ConversationMessage → Result (Unit {0}) × Conn → Type 0
  Wrote done m (ok _, c) = Pending t (done ++ as_sent i m ∷ []) c
  Wrote done m (err _, c) = Pending t done c

  write_message-Wrote :
      (done : List Sent) (m : ConversationMessage) (c : Conn)
      → Pending t done c
      → Wrote done m (write_message env i m c)
  unfolding create_message execute
  write_message-Wrote done m c p = elim (Option-cases (env.fault c.step)) [
    | inl fine ↦ rw fine (record {
      committed = p.committed;
      open_part =
          sent_of-insert_message m (stamp env c.step) c.db
          ∙ rw p.open_part (append_assoc (sent_of t) done (as_sent i m ∷ []));
    })
    | inr (e, failed) ↦ rw failed (record { committed = p.committed; open_part = p.open_part })
  ]

  abbrev WroteAll : List Sent → Result (Unit {0}) × Conn → Type 0
  WroteAll all (ok _, c) = Pending t all c
  WroteAll all (err _, c) = Stopped t all c

  for_each-WroteAll :
      (done : List Sent) (ms : List ConversationMessage) (c : Conn)
      → Pending t done c
      → WroteAll (done ++ map (as_sent i) ms) (for_each ms (write_message env i) c)
  for_each-WroteAll done [] c p = rw append-nil p
  for_each-WroteAll done (m ∷ ms) c p =
      go (write_message env i m c) (write_message-Wrote done m c p)
        (λ c'. for_each-WroteAll (done ++ as_sent i m ∷ []) ms c')
    where
      go :
          (r : Result (Unit {0}) × Conn)
          → Wrote done m r
          → ((c' : Conn)
              → Pending t (done ++ as_sent i m ∷ []) c'
              → WroteAll
                  ((done ++ as_sent i m ∷ []) ++ map (as_sent i) ms)
                  (for_each ms (write_message env i) c'))
          → WroteAll
              (done ++ map (as_sent i) (m ∷ ms))
              (continue r.0 (λ _. for_each ms (write_message env i)) r.1)
      go (ok u, c') w rest =
          subst (λ l. WroteAll l (for_each ms (write_message env i) c'))
            (append_assoc done (as_sent i m ∷ []) (map (as_sent i) ms)) (rest c' w)
      go (err e, c') w rest = record {
        done = done;
        rest = as_sent i m ∷ map (as_sent i) ms;
        parts = refl;
        pending = w;
      }

-- The payload is in, and committed.
pub record Stored (t : Table MessageRow) (all : List Sent) (c : Conn) : Type 0 where
  pub clean : c.db.conversation_message ≡ c.committed.conversation_message
  pub stored : sent_of c.committed.conversation_message ≡ sent_of t ++ all

module _ (t : Table MessageRow) (env : Env) (i : ℕ) where
  abbrev Ended : List Sent → Result (Unit {0}) × Conn → Type 0
  Ended all (ok _, c) = Stored t all c
  Ended all (err _, c) = Stopped t all c

  finish-Ended : (all : List Sent) (c : Conn) → Pending t all c → Ended all (finish env true c)
  unfolding finish commit
  finish-Ended all c p = elim (Option-cases (env.fault c.step)) [
    | inl fine ↦ rw fine (record { clean = refl; stored = p.open_part })
    | inr (e, failed) ↦ rw failed (record {
      done = all;
      rest = [];
      parts = append-nil all;
      pending = record { committed = p.committed; open_part = p.open_part };
    })
  ]

  write_messages-Ended :
      (ms : List ConversationMessage) (c : Conn)
      → Pending t [] c
      → Ended (map (as_sent i) ms) (write_messages env true i ms c)
  unfolding write_messages
  write_messages-Ended ms c p =
      go (for_each ms (write_message env i) c) (for_each-WroteAll t env i [] ms c p)
    where
      go :
          (r : Result (Unit {0}) × Conn)
          → WroteAll t env i (map (as_sent i) ms) r
          → Ended (map (as_sent i) ms) (continue r.0 (λ _. finish env true) r.1)
      go (ok u, c') w = finish-Ended (map (as_sent i) ms) c' w
      go (err e, c') w = w

Pending-nil : (t : Table MessageRow) (c : Conn) → Both (Messages t) c → Pending t [] c
Pending-nil t c b = record {
  committed = b.committed;
  open_part = ap sent_of b.db ∙ sym (append-nil (sent_of t));
}

-- How a write of the messages ends. It returns: they are stored, each once and in their order, in
-- the conversation that the cache names, with nothing left open. It raises: no message is
-- committed, and the open transaction holds those before the statement that failed.
pub record Success (t : Table MessageRow) (ms : List ConversationMessage) (app : App) : Type 0 where
  pub id : ℕ
  pub cached : app.cache.conversation_id ≡ some id
  pub stored : Stored t (map (as_sent id) ms) app.conn

pub record Failure (t : Table MessageRow) (ms : List ConversationMessage) (app : App) : Type 0 where
  pub id : ℕ
  pub stopped : Stopped t (map (as_sent id) ms) app.conn

abbrev pub Outcome : Table MessageRow → List ConversationMessage → Result (Unit {0}) × App → Type 0
Outcome t ms (ok _, app) = Success t ms app
Outcome t ms (err _, app) = Failure t ms app

module _ (t : Table MessageRow) (env : Env) (config : Config) (adapter : config.has_adapter ≡ true)
    (ms : List ConversationMessage) where
  execute_transaction-Outcome :
      (app : App)
      → Both (Messages t) app.conn
      → Outcome t ms (execute_transaction env config ms app)
  unfolding execute_transaction
  execute_transaction-Outcome app b =
      go (ensure_ids env config app) ((ensure_ids-keeps t env config).at app b)
        (λ i e. (ensure_ids-IsCached env config).at app i e)
    where
      finished :
          (i : ℕ) (app' : App) (r : Result (Unit {0}) × Conn)
          → app'.cache.conversation_id ≡ some i
          → Ended t env i (map (as_sent i) ms) r
          → Outcome t ms (r.0, record app' { conn = r.1 })
      finished i app' (ok u, c) e w = record { id = i; cached = e; stored = w }
      finished i app' (err x, c) e w = record { id = i; stopped = w }

      go :
          (r : Result ℕ × App)
          → Both (Messages t) r.1.conn
          → ((i : ℕ) → r.0 ≡ ok i → r.1.cache.conversation_id ≡ some i)
          → Outcome t ms
              (continue r.0 (λ i. on_conn (write_messages env config.has_adapter i ms)) r.1)
      go (ok i, app') w cached = rw adapter (
          finished i app' (write_messages env true i ms app'.conn) (cached i refl)
            (write_messages-Ended t env i ms app'.conn (Pending-nil t app'.conn w)))
      go (err e, app') w cached = record {
        id = 0;
        stopped = record {
          done = [];
          rest = map (as_sent 0) ms;
          parts = refl;
          pending = Pending-nil t app'.conn w;
        };
      }

  Stopped-again :
      (all : List Sent) (c : Conn) (n : ℕ) → Stopped t all c → Stopped t all (record c { step = n })
  Stopped-again all c n h = record {
    done = h.done;
    rest = h.rest;
    parts = h.parts;
    pending = record { committed = h.pending.committed; open_part = h.pending.open_part };
  }

  abbrev RolledBack : Result (Unit {0}) × App → Type 0
  RolledBack (ok _, app) = Both (Messages t) app.conn
  RolledBack (err _, app) = Failure t ms app

  roll_back-RolledBack :
      (app : App) → Failure t ms app → RolledBack (roll_back env config.has_adapter app)
  unfolding roll_back rollback
  roll_back-RolledBack app f = rw adapter (elim (Option-cases (env.fault app.conn.step)) [
    | inl fine ↦
        rw fine
          (record { committed = f.stopped.pending.committed; db = f.stopped.pending.committed })
    | inr (e, failed) ↦
        rw failed (record {
          id = f.id;
          stopped = Stopped-again (map (as_sent f.id) ms) app.conn _ f.stopped;
        })
  ])

  attempt-Outcome :
      (k : ℕ) (app : App)
      → ((app' : App)
          → Both (Messages t) app'.conn
          → 0 < k
          → Outcome t ms (attempts env config ms k app'))
      → Both (Messages t) app.conn
      → Outcome t ms (attempts env config ms (suc k) app)
  unfolding attempts
  attempt-Outcome k app later b =
      go (execute_transaction env config ms app) (execute_transaction-Outcome app b)
    where
      again :
          (r : Result (Unit {0}) × App)
          → RolledBack r
          → 0 < k
          → Outcome t ms (continue r.0 (λ _. attempts env config ms k) r.1)
      again (ok u, app') w left = later app' w left
      again (err x, app') w left = w

      go :
          (r : Result (Unit {0}) × App)
          → Outcome t ms r
          → Outcome t ms (elim r.0 as (λ _. Result (Unit {0}) × App) [
            | ok _ ↦ (ok tt, r.1)
            | err e ↦
                if is_retryable config e && ltb 0 k
                then (roll_back env config.has_adapter >>= λ _. attempts env config ms k) r.1
                else (err e, r.1)
          ])
      go (ok u, app') w = w
      go (err e, app') w = elim (Bool-cases (is_retryable config e && ltb 0 k)) [
        | inl retry ↦ rw retry (
            again (roll_back env config.has_adapter app') (roll_back-RolledBack app' w)
              (and_ltb (is_retryable config e) k retry))
        | inr final ↦ rw final w
      ]

  attempts-Outcome :
      (k : ℕ) (app : App)
      → Both (Messages t) app.conn
      → Outcome t ms (attempts env config ms (suc k) app)
  attempts-Outcome zero app b = attempt-Outcome zero app (λ app' _ left. absurd (omega arith)) b
  attempts-Outcome (suc k) app b =
      attempt-Outcome (suc k) app (λ app' b' _. attempts-Outcome k app' b') b

-- `Writer.execute`, with a store, an adapter and at least one round, from a connection whose open
-- transaction has the messages `t` that are committed, whatever fails. If it returns, the committed
-- messages are those of `t` followed by the payload's, each once and in order, in the conversation
-- that the cache now names, and no other message is open; if it raises, the committed messages are
-- those of `t`, and the open transaction has besides them just the messages of a first part of the
-- payload.
pub execute_once :
    (t : Table MessageRow) (env : Env) (config : Config) (ms : List ConversationMessage) (k : ℕ)
    (app : App)
    → config.has_storage ≡ true
    → config.has_adapter ≡ true
    → Both (Messages t) app.conn
    → Outcome t ms (Writer.execute env config ms (suc k) app)
unfolding Writer.execute
execute_once t env config ms k app storage adapter b =
    simp storage (attempts-Outcome t env config adapter ms k app b)
