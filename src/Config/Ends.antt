-- ===== src/Config/Ends.antt =====
-- agent/config/migrate.go: MigrateRaw ends.
use qrx_node_suite.Prelude.{
  ℕ, zero, suc, ◌+◌, ◌≤◌, ◌<◌, ◌≡◌, refl, ap, Bool, true, false, Option, none, some, List, [], ◌∷◌,
  eqb, arith, inl, inr, ◌⊎◌,
}
use mathlib.Core.Path.{subst}
use qrx_node_suite.Errors.{Result, ok, err, bad_json, no_migration_path}
use qrx_node_suite.Config.{
  Codec, RawMigration, find_from, version_or, migrate_loop, validated, finish, migrate_raw,
}

-- Every migration leads to a later version, and none beyond the current one.
abbrev pub Rising : {Raw : Type 0} → ℕ → List (RawMigration Raw) → Type 0
Rising current [] = Unit
Rising current (m ∷ ms) = (m.from < m.to) × (m.to ≤ current) × Rising current ms

some_eq : {A : Type 0} {a b : A} → some a ≡ some b → a ≡ b
some_eq q = cc

picked :
    {A : Type 0} (b : Bool) {x m : A} {rest : Option A}
    → elim b as (λ z. Option A) [ true ↦ some x | false ↦ rest ] ≡ some m
    → ((b ≡ true) × (x ≡ m)) ⊎ (rest ≡ some m)
picked true e = inl (refl, some_eq e)
picked false e = inr e

later : (f t : ℕ) {v : ℕ} → eqb f v ≡ true → f < t → v < t
later f t y h = ground arith

-- What the search finds starts at the version and rises.
find_from-Rising :
    {Raw : Type 0} (current version : ℕ) (ms : List (RawMigration Raw)) (m : RawMigration Raw)
    → Rising current ms
    → find_from version ms ≡ some m
    → (version < m.to) × (m.to ≤ current)
unfolding find_from
find_from-Rising current version [] m h e = cc
find_from-Rising {Raw} current version (x ∷ ms) m h e = elim (picked (eqb x.from version) e) [
  | inl (y, q) ↦
      subst (λ (z : RawMigration Raw). (version < z.to) × (z.to ≤ current)) q
        (later x.from x.to y h.0, h.1)
  | inr q ↦ find_from-Rising current version ms m h.2 q
]

module _ {Bytes Raw : Type 0} (c : Codec Bytes Raw) (current : ℕ)
    (ms : List (RawMigration Raw)) where
  abbrev Settled : {A : Type 0} → Option A → Type 0
  Settled {A} o = (a : A) × (o ≡ some a)

  -- From below the current version, each round leaves fewer versions above; from above, there is none.
  loop-Settled :
      (fuel version : ℕ) (raw : Raw)
      → Rising current ms
      → 0 < fuel
      → (version ≤ current → current < version + fuel)
      → Settled (migrate_loop c current ms fuel version raw)
  unfolding migrate_loop
  loop-Settled zero version raw h z f = ground arith
  loop-Settled (suc fuel) version raw h z f =
      round (eqb version current) (find_from version ms) λ m e r.
        let (a, b) = find_from-Rising current version ms m h e in
        loop-Settled fuel m.to r h (omega (arith, a, b, f)) (λ k. omega (arith, a, b, f))
    where
      applied :
          (m : RawMigration Raw) (o : Result Raw)
          → ((r : Raw) → Settled (migrate_loop c current ms fuel m.to r))
          → Settled (elim o as (λ k. Option (Result Raw)) [
            | err e ↦ some (err e)
            | ok r ↦ migrate_loop c current ms fuel m.to (c.set_version m.to r)
          ])
      applied m (ok r) k = k (c.set_version m.to r)
      applied m (err e) k = (err e, refl)

      round :
          (b : Bool) (o : Option (RawMigration Raw))
          → ((m : RawMigration Raw)
              → o ≡ some m
              → (r : Raw) → Settled (migrate_loop c current ms fuel m.to r))
          → Settled (elim b as (λ k. Option (Result Raw)) [
            | true ↦ some (ok raw)
            | false ↦ elim o as (λ k. Option (Result Raw)) [
              | none ↦ some (err no_migration_path)
              | some m ↦ elim (m.apply raw) as (λ k. Option (Result Raw)) [
                | err e ↦ some (err e)
                | ok r ↦ migrate_loop c current ms fuel m.to (c.set_version m.to r)
              ]
            ]
          ])
      round true o k = (ok raw, refl)
      round false none k = (err no_migration_path, refl)
      round false (some m) k = applied m (m.apply raw) (k m refl)

  validated-is_config :
      (r : Result Raw) (out : Bytes) → validated c current ms r ≡ ok out → c.is_config out ≡ true
  unfolding validated
  validated-is_config (err e) out h = cc
  validated-is_config (ok raw) out h = encoded (c.encode raw) h
    where
      same : {a b : Bytes} → ok a ≡ ok b → a ≡ b
      same q = cc

      checked :
          (b : Bool) (text : Bytes)
          → c.is_config text ≡ b
          → elim b as (λ k. Result Bytes) [ true ↦ ok text | false ↦ err bad_json ] ≡ ok out
          → c.is_config out ≡ true
      checked true text e q = subst (λ (x : Bytes). c.is_config x ≡ true) (same q) e
      checked false text e q = cc

      encoded :
          (o : Option Bytes)
          → elim o as (λ k. Result Bytes) [
            | none ↦ err bad_json
            | some text ↦ elim (c.is_config text) as (λ k. Result Bytes) [
              | true ↦ ok text
              | false ↦ err bad_json
            ]
          ]
            ≡ ok out
          → c.is_config out ≡ true
      encoded none q = cc
      encoded (some text) q = checked (c.is_config text) text refl q

  -- Where every migration leads to a later version and none beyond the current one, MigrateRaw returns
  -- for every file, within as many rounds as there are versions, and bytes that it returns without an
  -- error are a configuration.
  pub migrate_raw_total :
      (file : Bytes)
      → Rising current ms
      → (r : Result Bytes) × (migrate_raw c current ms file ≡ some r)
        × ((out : Bytes) → r ≡ ok out → c.is_config out ≡ true)
  unfolding migrate_raw
  migrate_raw_total file h = decoded (c.decode file)
    where
      finished :
          (o : Option (Result Raw))
          → Settled o
          → (r : Result Bytes) × (finish c current ms o ≡ some r)
            × ((out : Bytes) → r ≡ ok out → c.is_config out ≡ true)
      finished o (r, e) = (
        validated c current ms r,
        ap (finish c current ms) e,
        λ out q. validated-is_config r out q,
      )

      decoded :
          (o : Option Raw)
          → (r : Result Bytes) × (elim o as (λ k. Option (Result Bytes)) [
            | none ↦ some (err bad_json)
            | some raw ↦ finish c current ms (
                migrate_loop c current ms
                  (current + 1)
                  (version_or (c.version_field raw) current)
                  raw)
          ]
              ≡ some r)
            × ((out : Bytes) → r ≡ ok out → c.is_config out ≡ true)
      decoded none = (err bad_json, refl, λ out q. cc)
      decoded (some raw) =
          let v = version_or (c.version_field raw) current in
          finished (migrate_loop c current ms (current + 1) v raw)
            (loop-Settled (current + 1) v raw h (omega arith) (λ k. omega arith))
