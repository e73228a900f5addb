-- ===== src/Tests/Storage.antt =====
-- Runs of the builder.
use memori.Prelude.{String, refl, true, some, [], ◌∷◌, arith}
use memori.Storage.Builder.{Site, Build, execute_builder}
use memori.Storage.Builder.Steps.{numbered}
use memori.Storage.Builder.Upgrade.{IsReady, Upgraded, execute_builder-Upgraded}
use memori.Tests.{calm, calm-IsQuiet, opened}

-- Two revisions, of which a new database has none.
abbrev site : Site String
site = record {
  has_adapter = true;
  has_driver = true;
  supported = true;
  migrations = some (numbered 1 (("a" ∷ "b" ∷ []) ∷ ("c" ∷ []) ∷ []));
  requires_rollback = true;
}

abbrev unbuilt : Build String
unbuilt = record { conn = opened; executed = [] }

site-IsReady : IsReady site (numbered 1 (("a" ∷ "b" ∷ []) ∷ ("c" ∷ []) ∷ []))
site-IsReady = record { adapter = refl; driver = refl; registered = refl; known = refl }

execute_builder-Upgraded_example :
    Upgraded 2 ("a" ∷ "b" ∷ "c" ∷ []) (execute_builder calm site unbuilt)
execute_builder-Upgraded_example =
    execute_builder-Upgraded calm site [] (("a" ∷ "b" ∷ []) ∷ ("c" ∷ []) ∷ []) unbuilt calm-IsQuiet
      site-IsReady (omega arith) refl refl
