-- ===== src/Conn/Quiet.antt =====
-- Two views of a run: what holds of both databases of a connection whatever fails, and what a
-- step does when nothing fails.
use memori.Prelude.{ℕ, suc, ◌≡◌, refl, Option, none, some, arith}
use memori.Exec.{Exc, ok}
use memori.Exec.Preserves.{Preserves, preserves_rules}
use memori.Schema.{Db}
use memori.Conn.{
  get_or_create, Env, Conn, Stamp, stamp, attempt, execute, write, query, commit, rollback,
}

-- `P` of what is committed and of what the transaction sees.
pub record Both (P : Db → Type 0) (c : Conn) : Type 0 where
  pub committed : P c.committed
  pub db : P c.db

module _ {P : Db → Type 0} (env : Env) where
  pub attempt-Both :
      {A : Type 0} (e : Option Exc) (a : A) (c' c : Conn)
      → Both P c'
      → Both P c
      → Both P (attempt env e (a, c') c).1
  attempt-Both none a c' c h b = record { committed = h.committed; db = h.db }
  attempt-Both (some e) a c' c h b = record { committed = b.committed; db = b.db }

  pub Preserves-execute :
      {A : Type 0} (f : Stamp → Db → A × Db)
      → ((s : Stamp) (db : Db) → P db → P (f s db).1)
      → Preserves (Both P) (execute env f)
  unfolding execute
  Preserves-execute f h = record {
    at = λ c b.
        attempt-Both (env.fault c.step) (f (stamp env c.step) c.db).0
          (record c { db = (f (stamp env c.step) c.db).1 }) c
          (record { committed = b.committed; db = h (stamp env c.step) c.db b.db }) b;
  }

  pub Preserves-write :
      (f : Stamp → Db → Db)
      → ((s : Stamp) (db : Db) → P db → P (f s db))
      → Preserves (Both P) (write env f)
  Preserves-write f h = Preserves-execute (λ s db. (tt, f s db)) h

  pub Preserves-query : {A : Type 0} (f : Db → A) → Preserves (Both P) (query env f)
  Preserves-query f = Preserves-execute (λ _ db. (f db, db)) (λ _ _ p. p)

  pub Preserves-commit : Preserves (Both P) (commit env)
  unfolding commit
  Preserves-commit = record {
    at = λ c b.
        attempt-Both (env.fault c.step) tt (record c { committed = c.db }) c
          (record { committed = b.db; db = b.db }) b;
  }

  pub Preserves-rollback : Preserves (Both P) (rollback env)
  unfolding rollback
  Preserves-rollback = record {
    at = λ c b.
        attempt-Both (env.fault c.step) tt (record c { db = c.committed }) c
          (record { committed = b.committed; db = b.committed }) b;
  }

  pub Preserves-get_or_create :
      (insert : Stamp → Db → Db) (find : Db → Option ℕ)
      → ((s : Stamp) (db : Db) → P db → P (insert s db))
      → Preserves (Both P) (get_or_create env insert find)
  Preserves-get_or_create insert find h =
      unfold get_or_create in
      search (preserves_rules, Preserves-write, Preserves-query, Preserves-commit, h)

-- The row that was found stays found: it is committed.
pub get_or_create-finds :
    (env : Env) (insert : Stamp → Db → Db) (find : Db → Option ℕ) (i : ℕ) (c : Conn)
    → (get_or_create env insert find c).0 ≡ ok i
    → Both (λ db. find db ≡ some i) (get_or_create env insert find c).1
unfolding get_or_create
get_or_create-finds env insert find i c h = ground arith

-- A row that the INSERT does not hide is the row that is returned.
pub get_or_create-known :
    (env : Env) (insert : Stamp → Db → Db) (find : Db → Option ℕ) (i j : ℕ) (c : Conn)
    → find (insert (stamp env c.step) c.db) ≡ some i
    → (get_or_create env insert find c).0 ≡ ok j
    → j ≡ i
unfolding get_or_create
get_or_create-known env insert find i j c k h = ground arith

-- Nothing fails.
pub record IsQuiet (env : Env) : Type 0 where
  pub no_fault : (n : ℕ) → env.fault n ≡ none

module _ (env : Env) (quiet : IsQuiet env) where
  pub execute-quiet :
      {A : Type 0} (f : Stamp → Db → A × Db) (c : Conn)
      → let (a, db') = f (stamp env c.step) c.db in
        execute env f c ≡ (ok a, record c { db = db'; step = suc c.step })
  unfolding execute
  execute-quiet f c = rw (quiet.no_fault c.step) refl

  pub commit-quiet :
      (c : Conn) → commit env c ≡ (ok tt, record c { committed = c.db; step = suc c.step })
  unfolding commit
  commit-quiet c = rw (quiet.no_fault c.step) refl

  pub rollback-quiet :
      (c : Conn) → rollback env c ≡ (ok tt, record c { db = c.committed; step = suc c.step })
  unfolding rollback
  rollback-quiet c = rw (quiet.no_fault c.step) refl

  -- It commits, and returns the id of the row that the INSERT left there.
  pub get_or_create-quiet :
      (insert : Stamp → Db → Db) (find : Db → Option ℕ) (i : ℕ) (c : Conn)
      → find (insert (stamp env c.step) c.db) ≡ some i
      → let db' = insert (stamp env c.step) c.db in
        get_or_create env insert find c
        ≡ (ok i, record { committed = db'; db = db'; step = suc (suc (suc c.step)) })
  unfolding get_or_create
  get_or_create-quiet insert find i c h =
      ground (
        arith,
        quiet.no_fault c.step,
        quiet.no_fault (suc c.step),
        quiet.no_fault (suc (suc c.step)),
      )
