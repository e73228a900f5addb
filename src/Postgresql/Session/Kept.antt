-- ===== src/Postgresql/Session/Kept.antt =====
-- What the statements of a session keep of both databases.
use memori.Prelude.{ℕ, Bool, true, false, ◌≡◌, Option, some, none, if◌then◌else◌}
use memori.Exec.{Exc, Result, err, other}
use memori.Exec.Preserves.{Preserves, preserves_rules}
use memori.Schema.{Db}
use memori.Conn.{Env, Conn, Stamp, stamp}
use memori.Conn.Quiet.{Both}
use memori.Server.{keep_ids, checked}
use memori.Server.Kept.{checked-kept}
use memori.Postgresql.Session.{
  Session, statement, query, write, write_checked, commit, rollback, get_or_create, settle,
  settle_end, end,
}

-- `P` of what is committed and of what the transaction sees.
abbrev pub Holds : (Db → Type 0) → Session → Type 0
Holds P s = Both P s.conn

module _ {P : Db → Type 0} where
  settle-Holds :
      {A : Type 0} (e : Option Exc) (out : Option A × Db) (s : Session)
      → Holds P s
      → P out.1
      → Holds P (settle e out s).1
  settle-Holds (some e) (r, db) s h p = record { committed = h.committed; db = h.db }
  settle-Holds none (none, db) s h p = record { committed = h.committed; db = h.db }
  settle-Holds none (some a, db) s h p = record { committed = h.committed; db = p }

  -- An aborted transaction changes nothing.
  refuse-Holds :
      {A : Type 0} (refused : Bool) (out : Result A × Session) (s : Session)
      → Holds P s
      → Holds P out.1
      → Holds P (if refused then (err other, s) else out).1
  refuse-Holds true out s b h = b
  refuse-Holds false out s b h = h

  settle_end-Holds :
      (e : Option Exc) (c : Conn) (s : Session)
      → Holds P s
      → Both P c
      → Holds P (settle_end e c s).1
  settle_end-Holds (some e) c s h b = record { committed = h.committed; db = h.db }
  settle_end-Holds none c s h b = record { committed = b.committed; db = b.db }

  module _ (env : Env) where
    pub Preserves-statement :
        {A : Type 0} (f : Stamp → Db → Option A × Db)
        → ((s : Stamp) (db : Db) → P db → P (f s db).1)
        → Preserves (Holds P) (statement env f)
    unfolding statement
    Preserves-statement f h = record {
      at = λ s b.
          refuse-Holds s.aborted
            (settle (env.fault s.conn.step) (f (stamp env s.conn.step) s.conn.db) s) s b
            (settle-Holds (env.fault s.conn.step) (f (stamp env s.conn.step) s.conn.db) s b
              (h (stamp env s.conn.step) s.conn.db b.db));
    }

    pub Preserves-query : {A : Type 0} (f : Db → A) → Preserves (Holds P) (query env f)
    unfolding query
    Preserves-query f = Preserves-statement (λ _ db. (some (f db), db)) (λ _ _ p. p)

    pub Preserves-write :
        (f : Stamp → Db → Db)
        → ((s : Stamp) (db : Db) → P db → P (f s db))
        → Preserves (Holds P) (write env f)
    unfolding write
    Preserves-write f h = Preserves-statement (λ s db. (some tt, f s db)) h

    pub Preserves-write_checked :
        (fits : Db → Bool) (f : Stamp → Db → Db)
        → ((s : Stamp) (db : Db) → P db → fits db ≡ true → P (f s db))
        → Preserves (Holds P) (write_checked env fits f)
    unfolding write_checked
    Preserves-write_checked fits f h =
        Preserves-statement (checked fits f) (λ s db p. checked-kept P fits f s db (h s db p) p)

-- A counter is kept whatever becomes of its transaction.
abbrev pub KeepsIds : (Db → Type 0) → Type 0
KeepsIds P = (db other : Db) → P db → P (keep_ids db other)

module _ {P : Db → Type 0} (ids : KeepsIds P) (env : Env) where
  end-Both : (aborted : Bool) (c : Conn) → Both P c → Both P (end aborted c)
  end-Both true c b =
      let left = ids c.committed c.db b.committed in record { committed = left; db = left }
  end-Both false c b = record { committed = b.db; db = b.db }

  pub Preserves-commit : Preserves (Holds P) (commit env)
  unfolding commit
  Preserves-commit = record {
    at = λ s h.
        settle_end-Holds (env.fault s.conn.step) (end s.aborted s.conn) s h
          (end-Both s.aborted s.conn h);
  }

  pub Preserves-rollback : Preserves (Holds P) (rollback env)
  unfolding rollback
  Preserves-rollback = record {
    at = λ s h. settle_end-Holds (env.fault s.conn.step) _ s h (end-Both true s.conn h);
  }

  pub Preserves-get_or_create :
      (fits : Db → Bool) (insert : Stamp → Db → Db) (find : Db → Option ℕ)
      → ((s : Stamp) (db : Db) → P db → fits db ≡ true → P (insert s db))
      → Preserves (Holds P) (get_or_create env fits insert find)
  Preserves-get_or_create fits insert find h =
      unfold get_or_create in
      search (preserves_rules, Preserves-write_checked, Preserves-query, Preserves-commit, h)
