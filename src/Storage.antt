-- ===== src/Storage.antt =====
-- agent/storage/migrate.go: the schema migrations of the agent's database.
--
-- The schema is the list of the scripts that took effect, by name, in order; schema_migrations has one
-- row for each. A call of the database is one tick, and `fails` says which ticks fail.
pub mod Steps
pub mod Prefix
mod Tests
use qrx_node_suite.Prelude.{
  ℕ, ◌+◌, String, Bool, true, false, not, List, [], ◌∷◌, ◌++◌, if◌then◌else◌,
}
use qrx_node_suite.Errors.{Err, ok, err, io_failure}
use qrx_node_suite.Exec.{Exec, done, reads, modify, ◌>>=◌, ◌>>◌, guard}
use qrx_node_suite.Store.{has}
use qrx_node_suite.Store.Prune.{sort_strings}

pub record Tables : Type 0 where
  pub schema : List String
  pub schema_migrations : List String

pub record Database : Type 0 where
  pub tables : Tables
  pub ticks : ℕ
  pub fails : ℕ → Bool

pub query : Exec Database (Unit {0})
query d = (if d.fails d.ticks then err io_failure else ok tt, record d { ticks = d.ticks + 1 })

-- What a transaction that commits makes visible.
abbrev pub committed : String → Tables → Tables
committed name t = record {
  schema = t.schema ++ (name ∷ []);
  schema_migrations = t.schema_migrations ++ (name ∷ []);
}

-- Begin, the script, the row, whose key must be new, and Commit, before which nothing is visible.
pub apply_migration : String → Exec Database (Unit {0})
unfolding query guard ◌>>=◌
apply_migration name = do
  query
  query
  query
  rows ← reads (λ d. d.tables.schema_migrations)
  guard (not (has name rows)) io_failure
  query
  modify (λ d. record d { tables = committed name d.tables })

-- The loop over the files, with the versions that were applied at its start.
pub migrate_loop : List String → List String → Exec Database (Unit {0})
unfolding apply_migration ◌>>=◌
migrate_loop applied [] = done tt
migrate_loop applied (name ∷ names) =
    let rest = migrate_loop applied names in
    if has name applied then rest else (do apply_migration name; rest)

-- `files` are the embedded migrations. CREATE TABLE IF NOT EXISTS changes no row.
pub migrate : List String → Exec Database (Unit {0})
unfolding query migrate_loop ◌>>=◌
migrate files = do
  query
  query
  applied ← reads (λ d. d.tables.schema_migrations)
  migrate_loop applied (sort_strings files)
