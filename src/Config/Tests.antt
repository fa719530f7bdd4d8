-- ===== src/Config/Tests.antt =====
-- A file of the first version under two migrations, and the theorem applied to it.
use qrx_node_suite.Prelude.{ℕ, ◌≡◌, true, some, List, [], ◌∷◌, ltb, arith}
use qrx_node_suite.Errors.{Result, ok}
use qrx_node_suite.Config.{Codec, RawMigration, migrate_raw}
use qrx_node_suite.Config.Ends.{Rising, migrate_raw_total}

-- A file is its version, and only 3 is a configuration.
abbrev codec : Codec ℕ ℕ
codec = record {
  decode = λ file. some file;
  encode = λ raw. some raw;
  version_field = λ raw. some raw;
  set_version = λ version raw. version;
  is_config = λ file. ltb 2 file;
}

abbrev steps : List (RawMigration ℕ)
steps =
    record { from = 1; to = 2; apply = λ raw. ok raw }
    ∷ record { from = 2; to = 3; apply = λ raw. ok raw }
    ∷ []

steps-Rising : Rising 3 steps
steps-Rising = (omega arith, omega arith, (omega arith, omega arith, tt))

migrate_raw_total_example :
    (r : Result ℕ) × (migrate_raw codec 3 steps 1 ≡ some r)
    × ((out : ℕ) → r ≡ ok out → codec.is_config out ≡ true)
migrate_raw_total_example = migrate_raw_total codec 3 steps 1 steps-Rising
