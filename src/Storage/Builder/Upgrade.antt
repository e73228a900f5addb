-- ===== src/Storage/Builder/Upgrade.antt =====
-- A run of the builder executes just the migrations that are missing.
use mathlib.Core.List.{append-nil}
use memori.Prelude.{
  ℕ, suc, ◌+◌, ◌<◌, ◌≡◌, refl, sym, ap, ◌∙◌, true, some, List, [], ◌∷◌, ◌++◌, length, length-append,
  arith, ◌==◌, Bool-cases, inl, inr, ◌-◌,
}
use memori.Exec.{Result, ok, continue}
use memori.Schema.{Db}
use memori.Conn.{Env}
use memori.Conn.Quiet.{IsQuiet}
use memori.Storage.Builder.{
  Migrations, Site, Build, max_key, read_version, save_version, build_missing, upgrade,
  create_data_structures, execute_builder,
}
use memori.Storage.Builder.Steps.{
  numbered, concat, version, Progress, Came, Came-continue, length-numbered, max_key-numbered,
  read_version-Came, save_version-Came, build_revisions-Came,
}

module _ {Op : Type 0} where
  max_key-length :
      (all : List (List Op)) → 0 < length all → max_key (numbered 1 all) ≡ some (length all)
  max_key-length [] h = absurd (omega arith)
  max_key-length (ops ∷ all) h =
      let count : 1 + length all ≡ suc (length all) = omega arith in
      max_key-numbered 1 ops all ∙ ap some count

  concat-empty : (rest : List (List Op)) → length rest ≡ 0 → concat rest ≡ []
  concat-empty [] h = refl
  concat-empty (ops ∷ rest) h = absurd (omega arith)

  -- A run has returned, with nothing left open, at version `n`, and has executed `l`.
  pub record Upgraded (n : ℕ) (l : List Op) (r : Result (Unit {0}) × Build Op) : Type 0 where
    pub returned : r.0 ≡ ok tt
    pub clean : r.1.conn.db ≡ r.1.conn.committed
    pub version : version r.1.conn.committed ≡ n
    pub executed : r.1.executed ≡ l

  Came-Upgraded :
      (env : Env) (quiet : IsQuiet env) (n : ℕ) (db : Db) (l : List Op)
      (r : Result (Unit {0}) × Build Op)
      → Came env quiet tt db l r
      → version db ≡ n
      → Upgraded n l r
  Came-Upgraded env quiet n db l (r, b) (e, p) h = record {
    returned = e;
    clean = p.open_db ∙ sym p.committed;
    version = rw p.committed h;
    executed = p.executed;
  }

  -- A storage that can be built, with these migrations.
  pub record IsReady (site : Site Op) (migrations : Migrations Op) : Type 0 where
    pub adapter : site.has_adapter ≡ true
    pub driver : site.has_driver ≡ true
    pub registered : site.supported ≡ true
    pub known : site.migrations ≡ some migrations

  module _ (env : Env) (quiet : IsQuiet env) (site : Site Op) (done rest : List (List Op))
      (ready : IsReady site (numbered 1 (done ++ rest)))
      (some_key : 0 < length (done ++ rest)) where
    build_missing-Upgraded :
        (db : Db) (l : List Op) (b : Build Op)
        → Progress db l b
        → Upgraded
            (length (done ++ rest))
            (l ++ concat rest)
            (build_missing env site (numbered 1 (done ++ rest)) (length done) b)
    unfolding build_missing
    build_missing-Upgraded db l b p =
        let all = done ++ rest in
        let enough : length rest < suc (length (numbered 1 all)) =
          omega (arith, length-numbered 1 all, length-append done rest) in
        let minus : suc (length all) - 1 ≡ length all = omega arith in
        Came-Upgraded env quiet (length all)
          (record db { schema_version = (suc (length all) - 1) ∷ [] }) (l ++ concat rest) _
          (Came-continue env quiet (suc (length all)) tt db _ (l ++ concat rest) (l ++ concat rest)
            (save_version env site) _
            (build_revisions-Came env quiet done rest (suc (length (numbered 1 all))) (length done)
              db l b enough refl p)
            (λ b' p'.
              save_version-Came env quiet site (suc (length all)) db (l ++ concat rest) b'
                ready.driver p'))
          minus

    upgrade-Upgraded :
        (db : Db) (l : List Op) (b : Build Op)
        → version db ≡ length done
        → Progress db l b
        → Upgraded
            (length (done ++ rest))
            (l ++ concat rest)
            (upgrade env site (numbered 1 (done ++ rest)) (length done) b)
    unfolding upgrade
    upgrade-Upgraded db l b h p =
        rw (max_key-length (done ++ rest) some_key, upgrade)
          (elim (Bool-cases (length done == length (done ++ rest))) [
            | inl same ↦ rw same (
                let none_left : length rest ≡ 0 = ground (arith, length-append done rest) in
                Came-Upgraded env quiet (length (done ++ rest)) db (l ++ concat rest) (ok tt, b)
                  (rw (concat-empty rest none_left, append-nil l) (refl, p)) (ground (arith, h)))
            | inr more ↦ rw more (build_missing-Upgraded db l b p)
          ])

    run-Upgraded :
        (b : Build Op)
        → b.conn.db ≡ b.conn.committed
        → version b.conn.db ≡ length done
        → Upgraded (length (done ++ rest)) (b.executed ++ concat rest) (execute_builder env site b)
    unfolding execute_builder create_data_structures
    run-Upgraded b same h =
        rw (ready.adapter, ready.registered, ready.known)
          (go (read_version env site b) (
            read_version-Came env quiet site b.conn.db b.executed b ready.driver
              (record { open_db = refl; committed = sym same; executed = refl })))
      where
        go :
            (r : Result ℕ × Build Op)
            → Came env quiet (version b.conn.db) b.conn.db b.executed r
            → Upgraded
                (length (done ++ rest))
                (b.executed ++ concat rest)
                (continue r.0 (upgrade env site (numbered 1 (done ++ rest))) r.1)
        go (r, b') (e, p) = rw (e, h) (upgrade-Upgraded b.conn.db b.executed b' h p)

-- Where no statement fails: `Builder.execute`, of a storage that is ready, whose migrations are
-- numbered from 1, and whose stored version (0 if there is none) is the number of those `done`,
-- returns. It has executed the migrations of the other revisions, each once and in their order,
-- and the committed version is the number of all revisions. With no others it executes nothing.
pub execute_builder-Upgraded :
    {Op : Type 0} (env : Env) (site : Site Op) (done rest : List (List Op)) (b : Build Op)
    → IsQuiet env
    → IsReady site (numbered 1 (done ++ rest))
    → 0 < length (done ++ rest)
    → b.conn.db ≡ b.conn.committed
    → version b.conn.db ≡ length done
    → Upgraded (length (done ++ rest)) (b.executed ++ concat rest) (execute_builder env site b)
execute_builder-Upgraded env site done rest b quiet ready some_key same h =
    run-Upgraded env quiet site done rest ready some_key b same h
