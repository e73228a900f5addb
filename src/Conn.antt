-- ===== src/Conn.antt =====
-- A connection: what is committed, what the open transaction sees, and how many statements have
-- been executed. The statement of that number draws its own uuid and reads the clock (`Env`), and
-- may fail instead of running.
pub mod Quiet
use memori.Prelude.{ℕ, suc, String, Option, none, some, List}
use memori.Exec.{Exc, Result, ok, err, Exec, attribute_error, or_raise, ◌>>=◌, ◌>>◌}
use memori.Schema.{Db}

-- What the program does not implement, by the number of the statement: `uuid4()`, the clock, the
-- errors of the database, the ids that a rejected insert uses up. Also `str.lower`, SHA-256 (of
-- characters, to a hexadecimal text) and `struct.pack` of floats, given by their bit patterns.
pub record Env : Type 0 where
  pub uuid4 : ℕ → String
  pub now : ℕ → ℕ
  pub fault : ℕ → Option Exc
  pub gap : ℕ → ℕ
  pub lower : List ℕ → List ℕ
  pub sha256 : List ℕ → String
  pub pack : List ℕ → List ℕ

pub record Conn : Type 0 where
  pub committed : Db
  pub db : Db
  pub step : ℕ

-- What a statement may read beside the database.
pub record Stamp : Type 0 where
  pub uuid : String
  pub now : ℕ
  pub gap : ℕ

module _ (env : Env) where
  abbrev pub stamp : ℕ → Stamp
  stamp n = record { uuid = env.uuid4 n; now = env.now n; gap = env.gap n }

  -- The next step: it happens, or it raises and changes nothing.
  abbrev pub attempt : {A : Type 0} → Option Exc → A × Conn → Conn → Result A × Conn
  attempt none (a, c') c = (ok a, record c' { step = suc c.step })
  attempt (some e) _ c = (err e, record c { step = suc c.step })

  -- `conn.execute(…)`, with what is fetched of its result
  unfoldable pub execute : {A : Type 0} → (Stamp → Db → A × Db) → Exec Conn A
  execute f c =
      let (a, db') = f (stamp c.step) c.db in
      attempt (env.fault c.step) (a, record c { db = db' }) c

  -- A query: it leaves the database as it is.
  abbrev pub query : {A : Type 0} → (Db → A) → Exec Conn A
  query f = execute (λ _ db. (f db, db))

  -- A statement that returns nothing.
  abbrev pub write : (Stamp → Db → Db) → Exec Conn (Unit {0})
  write f = execute (λ s db. (tt, f s db))

  -- `conn.commit()`
  unfoldable pub commit : Exec Conn (Unit {0})
  commit c = attempt (env.fault c.step) (tt, record c { committed = c.db }) c

  -- INSERT OR IGNORE, `commit()`, and `.fetchone().get("id", None)` of the row that is there
  unfoldable pub get_or_create : (Stamp → Db → Db) → (Db → Option ℕ) → Exec Conn ℕ
  unfolding execute commit
  get_or_create insert find = do
    write insert
    commit
    row ← query find
    or_raise attribute_error row

  -- `conn.rollback()`
  unfoldable pub rollback : Exec Conn (Unit {0})
  rollback c = attempt (env.fault c.step) (tt, record c { db = c.committed }) c
