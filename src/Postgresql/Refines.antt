-- ===== src/Postgresql/Refines.antt =====
-- Where nothing fails and the foreign keys are met, the driver does what SQLite's does.
pub mod Calls
use memori.Prelude.{
  ℕ, suc, String, Bool, true, false, Option, none, some, List, ◌≡◌, refl, ◌∙◌, arith, Bool-cases,
  inl, inr, if◌then◌else◌,
}
use memori.Exec.{continue, Exec, Result, ok, err, pure, or_raise, attribute_error, ◌>>=◌, ◌>>◌}
use memori.Schema.{Db}
use memori.Conn.{Env, Conn, Stamp, stamp}
use memori.Conn
use memori.Conn.Quiet.{IsQuiet, execute-quiet, commit-quiet}
use memori.Server.{checked}
use memori.Postgresql.Session.{
  Session, statement, query, write, write_checked, commit, get_or_create,
}

-- A connection without a failed statement.
abbrev pub session_of : Conn → Session
session_of c = record { conn = c; aborted = false }

abbrev pub lifted : {A : Type 0} → Result A × Conn → Result A × Session
lifted (r, c) = (r, session_of c)

module _ (env : Env) (quiet : IsQuiet env) where
  pub statement-quiet :
      {A : Type 0} (f : Stamp → Db → Option A × Db) (a : A) (db : Db) (c : Conn)
      → f (stamp env c.step) c.db ≡ (some a, db)
      → statement env f (session_of c)
        ≡ (ok a, session_of (record c { db = db; step = suc c.step }))
  unfolding statement
  statement-quiet f a db c h = rw (quiet.no_fault c.step, h) refl

  commit-refines : (c : Conn) → commit env (session_of c) ≡ lifted (Conn.commit env c)
  unfolding commit Conn.commit
  commit-refines c = rw (quiet.no_fault c.step) refl

  query-refines :
      {A : Type 0} (f : Db → A) (c : Conn)
      → query env f (session_of c) ≡ lifted (Conn.query env f c)
  unfolding query Conn.execute
  query-refines f c =
      statement-quiet (λ _ db. (some (f db), db)) (f c.db) c.db c refl
      ∙ rw (quiet.no_fault c.step) refl

  pub write-refines :
      (f : Stamp → Db → Db) (c : Conn) → write env f (session_of c) ≡ lifted (Conn.write env f c)
  unfolding write Conn.execute
  write-refines f c =
      statement-quiet (λ s db. (some tt, f s db)) tt (f (stamp env c.step) c.db) c refl
      ∙ rw (quiet.no_fault c.step) refl

  write_checked-refines :
      (fits : Db → Bool) (f : Stamp → Db → Db) (c : Conn)
      → fits c.db ≡ true
      → write_checked env fits f (session_of c) ≡ lifted (Conn.write env f c)
  unfolding write_checked Conn.execute
  write_checked-refines fits f c h =
      statement-quiet (checked fits f) tt (f (stamp env c.step) c.db) c (rw h refl)
      ∙ rw (quiet.no_fault c.step) refl

module _ {A B : Type 0} (f : A → Exec Session B) (g : A → Exec Conn B) where
  pub continue-refines :
      (out : Result A × Conn)
      → ((a : A) (c : Conn) → out ≡ (ok a, c) → f a (session_of c) ≡ lifted (g a c))
      → continue out.0 f (session_of out.1) ≡ lifted (continue out.0 g out.1)
  continue-refines (ok a, c) k = k a c refl
  continue-refines (err e, c) k = refl

-- `m` does on the session what `n` does on its connection.
pub record Agrees {A : Type 0} (m : Exec Session A) (n : Exec Conn A) (c : Conn) : Type 0 where
  pub same : m (session_of c) ≡ lifted (n c)

pub bind-Agrees :
    {A B : Type 0} {c : Conn} (m : Exec Session A) (n : Exec Conn A) (f : A → Exec Session B)
    (g : A → Exec Conn B)
    → Agrees m n c
    → ((a : A) (c' : Conn) → Agrees (f a) (g a) c')
    → Agrees (m >>= f) (n >>= g) c
bind-Agrees {c = c} m n f g h k = record {
  same = rw h.same (continue-refines f g (n c) (λ a c' _. (k a c').same));
}

module _ (env : Env) (quiet : IsQuiet env) where
  raise-Agrees :
      {A : Type 0} (o : Option A) (c : Conn)
      → Agrees (or_raise attribute_error o) (or_raise attribute_error o) c
  raise-Agrees none c = record { same = refl }
  raise-Agrees (some a) c = record { same = refl }

  pub query-Agrees :
      {A : Type 0} (f : Db → A) (c : Conn) → Agrees (query env f) (Conn.query env f) c
  query-Agrees f c = record { same = query-refines env quiet f c }

  pub commit-Agrees : (c : Conn) → Agrees (commit env) (Conn.commit env) c
  commit-Agrees c = record { same = commit-refines env quiet c }

  pub checked-Agrees :
      (fits : Db → Bool) (f : Stamp → Db → Db) (c : Conn)
      → fits c.db ≡ true
      → Agrees (write_checked env fits f) (Conn.write env f) c
  checked-Agrees fits f c h = record { same = write_checked-refines env quiet fits f c h }

  pub got-Agrees :
      (fits : Db → Bool) (insert : Stamp → Db → Db) (find : Db → Option ℕ) (c : Conn)
      → fits c.db ≡ true
      → Agrees (get_or_create env fits insert find) (Conn.get_or_create env insert find) c
  unfolding get_or_create Conn.get_or_create
  got-Agrees fits insert find c h =
      search (bind-Agrees, checked-Agrees, commit-Agrees, query-Agrees, raise-Agrees) depth 9
