-- ===== src/Config.antt =====
-- agent/config/migrate.go: the migration of a configuration file.
--
-- Encoding and decoding are Go's JSON library, a parameter here. A version is a natural number: a
-- version field that is no number counts as absent, and one below zero is no version of this model.
pub mod Ends
mod Tests
use qrx_node_suite.Prelude.{
  ℕ, zero, suc, ◌+◌, Bool, true, false, Option, none, some, List, [], ◌∷◌, eqb,
}
use qrx_node_suite.Errors.{Err, Result, ok, err, bad_json, no_migration_path}

-- The JSON library, on a file's bytes and on the decoded map.
pub record Codec (Bytes Raw : Type 0) : Type 0 where
  pub decode : Bytes → Option Raw
  pub encode : Raw → Option Bytes
  pub version_field : Raw → Option ℕ
  pub set_version : ℕ → Raw → Raw
  pub is_config : Bytes → Bool

pub record RawMigration (Raw : Type 0) : Type 0 where
  pub from : ℕ
  pub to : ℕ
  pub apply : Raw → Result Raw

abbrev pub current_schema_version : ℕ
current_schema_version = 1

-- No migration has shipped.
abbrev pub migrations : {Raw : Type 0} → List (RawMigration Raw)
migrations = []

pub find_from : {Raw : Type 0} → ℕ → List (RawMigration Raw) → Option (RawMigration Raw)
find_from version [] = none
find_from version (m ∷ ms) =
    let rest = find_from version ms in elim (eqb m.from version) [ true ↦ some m | false ↦ rest ]

abbrev pub version_or : Option ℕ → ℕ → ℕ
version_or none v = v
version_or (some n) v = n

module _ {Bytes Raw : Type 0} (c : Codec Bytes Raw) (current : ℕ)
    (ms : List (RawMigration Raw)) where
  -- The loop; `none` is out of fuel.
  pub migrate_loop : ℕ → ℕ → Raw → Option (Result Raw)
  unfolding find_from
  migrate_loop zero version raw = none
  migrate_loop (suc fuel) version raw = elim (eqb version current) [
    | true ↦ some (ok raw)
    | false ↦ elim (find_from version ms) [
      | none ↦ some (err no_migration_path)
      | some m ↦ elim (m.apply raw) [
        | err e ↦ some (err e)
        | ok r ↦ migrate_loop fuel m.to (c.set_version m.to r)
      ]
    ]
  ]

  -- The result must encode and be a configuration.
  pub validated : Result Raw → Result Bytes
  validated (err e) = err e
  validated (ok raw) = elim (c.encode raw) [
    | none ↦ err bad_json
    | some out ↦ elim (c.is_config out) [ true ↦ ok out | false ↦ err bad_json ]
  ]

  abbrev pub finish : Option (Result Raw) → Option (Result Bytes)
  finish none = none
  finish (some r) = some (validated r)

  pub migrate_raw : Bytes → Option (Result Bytes)
  unfolding migrate_loop validated
  migrate_raw file = elim (c.decode file) [
    | none ↦ some (err bad_json)
    | some raw ↦ finish (migrate_loop (current + 1) (version_or (c.version_field raw) current) raw)
  ]
