-- ===== src/Postgresql/Session.antt =====
-- A connection to PostgreSQL. A statement that fails aborts the transaction: the next ones are
-- refused until a ROLLBACK, or a COMMIT, which is then a ROLLBACK.
pub mod Kept
use memori.Prelude.{ℕ, suc, String, Bool, true, false, Option, none, some, ◌||◌, any, if◌then◌else◌}
use memori.Exec.{
  Exc, other, integrity_error, attribute_error, Result, ok, err, Exec, or_raise, ◌>>=◌, ◌>>◌,
}
use memori.Sql.{Table, columns}
use memori.Schema.{Db}
use memori.Conn.{Env, Conn, Stamp, stamp}
use memori.Server.{checked, rolled_back}

pub record Session : Type 0 where
  pub conn : Conn
  pub aborted : Bool

-- The next step, with what it leaves of the connection.
abbrev pub step_to : Conn → Conn → Conn
step_to c c' = record c' { step = suc c.step }

-- A statement's end: an error of the server, a constraint that is not met, or a result.
abbrev pub settle : {A : Type 0} → Option Exc → Option A × Db → Session → Result A × Session
settle (some e) _ s = (err e, record { conn = step_to s.conn s.conn; aborted = true })
settle none (none, _) s =
    (err integrity_error, record { conn = step_to s.conn s.conn; aborted = true })
settle none (some a, db) s =
    (ok a, record { conn = step_to s.conn (record s.conn { db = db }); aborted = false })

-- COMMIT, of an open transaction or of an aborted one
abbrev pub end : Bool → Conn → Conn
end true c = rolled_back c
end false c = record c { committed = c.db }

abbrev pub settle_end : Option Exc → Conn → Session → Result (Unit {0}) × Session
settle_end (some e) c s = (err e, record { conn = step_to s.conn s.conn; aborted = true })
settle_end none c s = (ok tt, record { conn = step_to s.conn c; aborted = false })

module _ (env : Env) where
  unfoldable pub statement : {A : Type 0} → (Stamp → Db → Option A × Db) → Exec Session A
  statement f s =
      if s.aborted
      then (err other, s)
      else settle (env.fault s.conn.step) (f (stamp env s.conn.step) s.conn.db) s

  unfoldable pub query : {A : Type 0} → (Db → A) → Exec Session A
  unfolding statement
  query f = statement (λ _ db. (some (f db), db))

  unfoldable pub write : (Stamp → Db → Db) → Exec Session (Unit {0})
  unfolding statement
  write f = statement (λ s db. (some tt, f s db))

  unfoldable pub write_checked : (Db → Bool) → (Stamp → Db → Db) → Exec Session (Unit {0})
  unfolding statement
  write_checked fits f = statement (checked fits f)

  -- `conn.commit()`
  unfoldable pub commit : Exec Session (Unit {0})
  commit s = settle_end (env.fault s.conn.step) (end s.aborted s.conn) s

  -- `conn.rollback()`
  unfoldable pub rollback : Exec Session (Unit {0})
  rollback s = settle_end (env.fault s.conn.step) (rolled_back s.conn) s

  -- INSERT … ON CONFLICT DO NOTHING, `commit()`, and the id of the row that is there
  unfoldable pub get_or_create : (Db → Bool) → (Stamp → Db → Db) → (Db → Option ℕ) → Exec Session ℕ
  unfolding write_checked commit query
  get_or_create fits insert find = do
    write_checked fits insert
    commit
    row ← query find
    or_raise attribute_error row
