-- ===== src/Storage/Builder.antt =====
-- memori/storage/_builder.py: class Builder, over the SQLite driver's schema version. A migration is
-- any value that the adapter can execute; the tables that they create are there from the start,
-- and what has been executed is kept in a list. The messages on the terminal are left out.
pub mod Steps
pub mod Upgrade
use memori.Prelude.{
  ℕ, zero, suc, ◌-◌, String, Bool, true, false, Option, none, some, List, [], ◌∷◌, ◌++◌, length,
  ltb, ◌==◌, if◌then◌else◌,
}
use memori.Exec.{
  Exec, Exc, Result, ok, err, pure, raise, modify, or_raise, for_each, runtime_error,
  not_implemented, other, ◌>>=◌, ◌>>◌,
}
use memori.Conn.{Env, Conn, commit, rollback, execute}
use memori.Sqlite.SchemaVersion

-- `dict[int, list]`: the migrations of each revision.
abbrev pub Migrations : Type 0 → Type 0
Migrations Op = List (ℕ × List Op)

-- What the configuration and the registry say of the storage: whether it has an adapter and a
-- driver, whether the dialect is registered, its migrations, and `requires_rollback_on_error`.
pub record Site (Op : Type 0) : Type 0 where
  pub has_adapter : Bool
  pub has_driver : Bool
  pub supported : Bool
  pub migrations : Option (Migrations Op)
  pub requires_rollback : Bool

pub record Build (Op : Type 0) : Type 0 where
  pub conn : Conn
  pub executed : List Op

module _ {Op : Type 0} where
  abbrev pub on_conn : {A : Type 0} → Exec Conn A → Exec (Build Op) A
  on_conn m b = let (r, conn') = m b.conn in (r, record b { conn = conn' })

  -- `migrations[num]`, if `num in migrations`
  abbrev pub lookup : ℕ → Migrations Op → Option (List Op)
  lookup num [] = none
  lookup num ((k, ops) ∷ ms) = if k == num then some ops else lookup num ms

  -- `max(migrations.keys())`
  abbrev pub max_key : Migrations Op → Option ℕ
  max_key [] = none
  max_key ((k, _) ∷ ms) = greater k (max_key ms)
    where
      greater : ℕ → Option ℕ → Option ℕ
      greater k none = some k
      greater k (some m) = some (if ltb k m then m else k)

module _ {Op : Type 0} (env : Env) where
  abbrev pub journal : Op → Build Op → Build Op
  journal op b = record b { executed = b.executed ++ op ∷ [] }

  -- `adapter.execute(operation)` and `adapter.commit()`
  unfoldable pub run_migration : Op → Exec (Build Op) (Unit {0})
  run_migration op = do
    on_conn (execute env (λ _ db. (tt, db)))
    modify (journal op)
    on_conn (commit env)

  -- `while True:`, at most `fuel` times; the number at which it stops
  unfoldable pub build_revisions : Migrations Op → ℕ → ℕ → Exec (Build Op) ℕ
  unfolding run_migration
  build_revisions migrations zero num b = (ok num, b)
  build_revisions migrations (suc fuel) num b = elim (lookup (suc num) migrations) [
    | none ↦ (ok (suc num), b)
    | some ops ↦ (for_each ops run_migration >>= λ _. build_revisions migrations fuel (suc num)) b
  ]

  -- `except Exception:`, with the rollback that some databases need
  abbrev pub recovered : Bool → Result ℕ × Build Op → Result ℕ × Build Op
  recovered _ (ok num, b) = (ok num, b)
  recovered true (err _, b) = (on_conn (rollback env) >>= λ _. pure 0) b
  recovered false (err _, b) = (ok 0, b)

  unfoldable pub read_version : Site Op → Exec (Build Op) ℕ
  read_version site b =
      recovered site.requires_rollback
        ((if site.has_driver then on_conn (SchemaVersion.read env) else raise runtime_error) b)

  -- Once the missing revisions are built: the new number of the schema.
  unfoldable pub save_version : Site Op → ℕ → Exec (Build Op) (Unit {0})
  save_version site num b =
      if site.has_driver
      then (on_conn (SchemaVersion.delete env) >>= λ _.
            on_conn (SchemaVersion.create env (num - 1)) >>= λ _. on_conn (commit env))
          b
      else (err runtime_error, b)

  unfoldable pub build_missing : Site Op → Migrations Op → ℕ → Exec (Build Op) (Unit {0})
  unfolding build_revisions save_version
  build_missing site migrations num =
      build_revisions migrations (suc (length migrations)) num >>= save_version site

  -- `max` of no keys is a ValueError
  unfoldable pub upgrade : Site Op → Migrations Op → ℕ → Exec (Build Op) (Unit {0})
  unfolding build_missing
  upgrade site migrations num b = elim (max_key migrations) [
    | none ↦ (err other, b)
    | some m ↦ if num == m then (ok tt, b) else build_missing site migrations num b
  ]

  unfoldable pub create_data_structures : Site Op → Exec (Build Op) (Unit {0})
  unfolding read_version upgrade
  create_data_structures site b =
      if site.has_adapter
      then (read_version site >>= λ num.
            or_raise not_implemented site.migrations >>= λ migrations. upgrade site migrations num)
          b
      else (ok tt, b)

  unfoldable pub execute_builder : Site Op → Exec (Build Op) (Unit {0})
  unfolding create_data_structures
  execute_builder site b =
      if site.has_adapter
      then (if site.supported then create_data_structures site b else (err not_implemented, b))
      else (ok tt, b)
