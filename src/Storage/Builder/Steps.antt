-- ===== src/Storage/Builder/Steps.antt =====
-- What the parts of a run do where no statement fails.
use mathlib.Core.List.{append_assoc, append-nil}
use memori.Prelude.{
  ℕ, zero, suc, ◌+◌, ◌<◌, ◌≡◌, refl, ap, subst, Bool, true, false, Option, none, some, List, [],
  ◌∷◌, ◌++◌, length, arith, ◌==◌, if◌then◌else◌, any, ◌-◌,
}
use memori.Exec.{Exec, Result, ok, continue, for_each, or_raise, attribute_error}
use memori.Schema.{Db}
use memori.Conn.{Env}
use memori.Conn.Quiet.{IsQuiet, execute-quiet, commit-quiet, rollback-quiet}
use memori.Sqlite.SchemaVersion
use memori.Sqlite.SchemaVersion.{first}
use memori.Storage.Builder.{
  Migrations, Site, Build, lookup, max_key, run_migration, build_revisions, read_version,
  save_version, on_conn, recovered,
}

-- The revisions `k`, `k + 1` and so on.
abbrev pub numbered : {Op : Type 0} → ℕ → List (List Op) → Migrations Op
numbered k [] = []
numbered k (ops ∷ batches) = (k, ops) ∷ numbered (suc k) batches

abbrev pub concat : {Op : Type 0} → List (List Op) → List Op
concat [] = []
concat (ops ∷ batches) = ops ++ concat batches

abbrev head : {A : Type 0} → List A → Option A
head [] = none
head (x ∷ _) = some x

-- `SELECT num`, or 0 where there is no row
abbrev pub or_zero : Option ℕ → ℕ
or_zero none = 0
or_zero (some n) = n

abbrev pub version : Db → ℕ
version db = or_zero (first db.schema_version)

module _ {Op : Type 0} where
  pub length-numbered : (k : ℕ) (all : List (List Op)) → length (numbered k all) ≡ length all
  length-numbered k [] = refl
  length-numbered k (ops ∷ all) = ap suc (length-numbered (suc k) all)

  lookup-numbered :
      (n k : ℕ) (done rest : List (List Op))
      → n ≡ k + length done
      → lookup n (numbered k (done ++ rest)) ≡ head rest
  lookup-numbered n k [] [] e = refl
  lookup-numbered n k [] (ops ∷ rest) e = let same : (k == n) ≡ true = ground arith in rw same refl
  lookup-numbered n k (d ∷ done) rest e =
      let differs : (k == n) ≡ false = ground arith in
      rw differs (lookup-numbered n (suc k) done rest (omega arith))

  pub max_key-numbered :
      (k : ℕ) (ops : List Op) (all : List (List Op))
      → max_key (numbered k (ops ∷ all)) ≡ some (k + length all)
  max_key-numbered k ops [] = ground arith
  max_key-numbered k ops (ops' ∷ all) = ground (arith, max_key-numbered (suc k) ops' all)

  -- The two databases are `db`, and `l` has been executed.
  pub record Progress (db : Db) (l : List Op) (b : Build Op) : Type 0 where
    pub open_db : b.conn.db ≡ db
    pub committed : b.conn.committed ≡ db
    pub executed : b.executed ≡ l

  module _ (env : Env) (quiet : IsQuiet env) where
    run_migration-Progress :
        (op : Op) (db : Db) (l : List Op) (b : Build Op)
        → Progress db l b
        → ((run_migration env op b).0 ≡ ok tt)
          × Progress db (l ++ op ∷ []) (run_migration env op b).1
    unfolding run_migration
    run_migration-Progress op db l b p = rw (execute-quiet env quiet (λ _ d. (tt, d)) b.conn) (
        rw (commit-quiet env quiet _) (
          refl,
          record { open_db = p.open_db; committed = p.open_db; executed = rw p.executed refl },
        ))

    -- A run has returned `a`, and has come to `db` and `l`.
    abbrev pub Came : {A : Type 0} → A → Db → List Op → Result A × Build Op → Type 0
    Came a db l (r, b) = (r ≡ ok a) × Progress db l b

    pub Came-continue :
        {A B : Type 0} (a : A) (a' : B) (db db' : Db) (l l' : List Op) (f : A → Exec (Build Op) B)
        (r : Result A × Build Op)
        → Came a db l r
        → ((b : Build Op) → Progress db l b → Came a' db' l' (f a b))
        → Came a' db' l' (continue r.0 f r.1)
    Came-continue a a' db db' l l' f (r, b) (e, p) rest = rw e (rest b p)

    for_each-Came :
        (ops : List Op) (db : Db) (l : List Op) (b : Build Op)
        → Progress db l b
        → Came tt db (l ++ ops) (for_each ops (run_migration env) b)
    for_each-Came [] db l b p = rw append-nil (refl, p)
    for_each-Came (op ∷ ops) db l b p =
        Came-continue tt tt db db (l ++ op ∷ []) (l ++ op ∷ ops) _ (run_migration env op b)
          (run_migration-Progress op db l b p)
          (λ b' p'.
            subst (λ l'. Came tt db l' (for_each ops (run_migration env) b'))
              (append_assoc l (op ∷ []) ops) (for_each-Came ops db (l ++ op ∷ []) b' p'))

    length-snoc :
        (done : List (List Op)) (ops : List Op) → length (done ++ ops ∷ []) ≡ suc (length done)
    length-snoc [] ops = refl
    length-snoc (d ∷ done) ops = ap suc (length-snoc done ops)

    pub build_revisions-Came :
        (done rest : List (List Op)) (fuel num : ℕ) (db : Db) (l : List Op) (b : Build Op)
        → length rest < fuel
        → num ≡ length done
        → Progress db l b
        → Came
            (suc (length (done ++ rest)))
            db
            (l ++ concat rest)
            (build_revisions env (numbered 1 (done ++ rest)) fuel num b)
    unfolding build_revisions
    build_revisions-Came done rest zero num db l b enough e p = absurd (omega arith)
    build_revisions-Came done [] (suc fuel) num db l b enough e p =
        rw (lookup-numbered (suc num) 1 done [] (omega arith), build_revisions)
          (rw (append-nil done, append-nil l) (ap ok (ap suc e), p))
    build_revisions-Came done (ops ∷ rest) (suc fuel) num db l b enough e p =
        rw (lookup-numbered (suc num) 1 done (ops ∷ rest) (omega arith), build_revisions)
          (Came-continue tt _ db db (l ++ ops) _ _ (for_each ops (run_migration env) b)
            (for_each-Came ops db l b p)
            (λ b' p'. next b' (
              build_revisions-Came (done ++ ops ∷ []) rest fuel (suc num) db (l ++ ops) b'
                (omega arith) (omega (arith, length-snoc done ops)) p')))
      where
        next :
            (b' : Build Op)
            → Came
                (suc (length ((done ++ ops ∷ []) ++ rest)))
                db
                ((l ++ ops) ++ concat rest)
                (build_revisions env (numbered 1 ((done ++ ops ∷ []) ++ rest)) fuel (suc num) b')
            → Came
                (suc (length (done ++ ops ∷ rest)))
                db
                (l ++ (ops ++ concat rest))
                (build_revisions env (numbered 1 (done ++ ops ∷ rest)) fuel (suc num) b')
        next b' w = rw (← append_assoc done (ops ∷ []) rest, ← append_assoc l ops (concat rest)) w

    recovered-Came :
        (flag : Bool) (o : Option ℕ) (db : Db) (l : List Op) (b : Build Op)
        → Progress db l b
        → Came (or_zero o) db l (recovered env flag (on_conn (or_raise attribute_error o) b))
    recovered-Came true none db l b p =
        rw (rollback-quiet env quiet b.conn)
          (refl, record { open_db = p.committed; committed = p.committed; executed = p.executed })
    recovered-Came false none db l b p = (refl, p)
    recovered-Came flag (some n) db l b p = (refl, p)

    -- A missing version is read as 0.
    pub read_version-Came :
        (site : Site Op) (db : Db) (l : List Op) (b : Build Op)
        → site.has_driver ≡ true
        → Progress db l b
        → Came (version db) db l (read_version env site b)
    unfolding read_version SchemaVersion.read
    read_version-Came site db l b driver p =
        rw (driver, execute-quiet env quiet (λ _ d. (first d.schema_version, d)) b.conn)
          (subst
            (λ (d : Db). Came (version d) db l (
              recovered env site.requires_rollback (
                on_conn (or_raise attribute_error (first b.conn.db.schema_version))
                  (record b { conn = record b.conn { step = suc b.conn.step } }))))
            p.open_db
            (recovered-Came site.requires_rollback (first b.conn.db.schema_version) db l
              (record b { conn = record b.conn { step = suc b.conn.step } })
              (record { open_db = p.open_db; committed = p.committed; executed = p.executed })))

    pub save_version-Came :
        (site : Site Op) (num : ℕ) (db : Db) (l : List Op) (b : Build Op)
        → site.has_driver ≡ true
        → Progress db l b
        → Came tt (record db { schema_version = (num - 1) ∷ [] }) l (save_version env site num b)
    unfolding save_version SchemaVersion.delete SchemaVersion.create
    save_version-Came site num db l b driver p =
        rw
          (
            driver,
            execute-quiet env quiet (λ _ d. (tt, record d { schema_version = [] })) b.conn,
            execute-quiet env quiet
                (λ _ d.
                  if any (λ n. n == num - 1) d.schema_version
                  then (none, d)
                  else (some tt, record d { schema_version = d.schema_version ++ (num - 1) ∷ [] }))
                _,
            commit-quiet env quiet _,
          )
          (
            refl,
            record {
              open_db = rw p.open_db refl;
              committed = rw p.open_db refl;
              executed = p.executed;
            },
          )
