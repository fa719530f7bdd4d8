-- ===== src/Storage/Tests.antt =====
-- Two migrations on a fresh database, then a second start, and the theorem applied to them.
use qrx_node_suite.Prelude.{◌≡◌, refl, String, false, List, [], ◌∷◌, eqb, compare_codes}
use qrx_node_suite.Errors.{ok}
use qrx_node_suite.Exec.{◌>>=◌, guard}
use qrx_node_suite.Store.{has}
use qrx_node_suite.Store.Prune.{sort_strings}
use qrx_node_suite.Storage.{Database, migrate, query, migrate_loop, apply_migration}
use qrx_node_suite.Storage.Steps.{replay, due}
use qrx_node_suite.Storage.Prefix.{migrate-again}

abbrev files : List String
files = "0001_init.sql" ∷ "0002_history.sql" ∷ []

abbrev fresh : Database
fresh = record {
  tables = record { schema = []; schema_migrations = [] };
  ticks = 0;
  fails = λ n. false;
}

-- The second start, whose third call would fail.
abbrev again : Database
again = record (migrate files fresh).1 { ticks = 0; fails = λ n. eqb n 2 }

migrated : (migrate files fresh).0 ≡ ok tt
unfolding migrate query migrate_loop apply_migration has sort_strings compare_codes guard ◌>>=◌
migrated = refl

migrate-again_example :
    ((migrate files fresh).1.tables ≡ replay (due files fresh.tables) fresh.tables)
    × ((migrate files again).1.tables ≡ again.tables)
migrate-again_example = migrate-again files fresh again migrated refl
