-- ===== src/Storage/Steps.antt =====
-- agent/storage/migrate.go: what a migration does, call by call, and the scripts that it has run.
use qrx_node_suite.Prelude.{
  ◌+◌, ◌≡◌, refl, sym, ap, String, Bool, true, false, not, List, [], ◌∷◌, if◌then◌else◌, Bool-cases,
  inl, inr,
}
use mathlib.Core.Path.{subst}
use qrx_node_suite.Errors.{Err, ok, io_failure}
use qrx_node_suite.Exec.{Exec, ◌>>=◌, guard, modify}
use qrx_node_suite.Exec.Wp.{Wp, Wp-bind, Wp-weaken, both_of_Wp, ok_of_Wp}
use qrx_node_suite.Store.{has}
use qrx_node_suite.Store.Prune.{sort_strings}
use qrx_node_suite.Storage.{
  Database, Tables, query, committed, apply_migration, migrate_loop, migrate,
}

abbrev Leaves :
    {A : Type 0}
    → Exec Database A
    → Tables
    → (A → Tables → Type 0)
    → (Err → Tables → Type 0)
    → Type 0
Leaves m t Q E = Wp (λ (d : Database). d.tables) m t Q E

-- The files that are not in the table yet, in the order of their names.
unfoldable pub pending : List String → List String → List String
pending applied [] = []
pending applied (name ∷ names) =
    let rest = pending applied names in if has name applied then rest else name ∷ rest

-- One transaction after the other.
unfoldable pub replay : List String → Tables → Tables
replay [] t = t
replay (name ∷ names) t = replay names (committed name t)

-- The tables after the first of the scripts, up to some point.
pub data Reached : Tables → List String → Tables → Type 0 where
  stopped : {t : Tables} {names : List String} → Reached t names t
  ran :
      {t u : Tables} {name : String} {names : List String}
      → Reached (committed name t) names u
      → Reached t (name ∷ names) u

then_query :
    {B : Type 0} {R : B → Tables → Type 0} {E : Err → Tables → Type 0} {t : Tables}
    (f : Unit {0} → Exec Database B)
    → E io_failure t
    → Leaves (f tt) t R E
    → Leaves (query >>= f) t R E
unfolding query ◌>>=◌
then_query f bad h = record {
  at = λ d p. elim (Bool-cases (d.fails d.ticks)) [
    | inl y ↦ rw (y, p) bad
    | inr n ↦ rw n (h.at (record d { ticks = d.ticks + 1 }) p)
  ];
}

then_guard :
    {B : Type 0} {R : B → Tables → Type 0} {E : Err → Tables → Type 0} {t : Tables} (b : Bool)
    (f : Unit {0} → Exec Database B)
    → E io_failure t
    → Leaves (f tt) t R E
    → Leaves (guard b io_failure >>= f) t R E
unfolding guard ◌>>=◌
then_guard true f bad h = record { at = λ d p. h.at d p }
then_guard false f bad h = record { at = λ d p. rw p bad }

apply_ends :
    (name : String) {t : Tables}
    → Leaves (apply_migration name) t (λ a u. u ≡ committed name t) (λ e u. u ≡ t)
unfolding apply_migration
apply_ends name {t} = then_query _ refl (
    then_query _ refl (
      then_query _ refl (record {
        at = λ d p.
            (then_guard (not (has name d.tables.schema_migrations)) _ refl
                (then_query _ refl done_ends)).at
              d p;
      })))
  where
    done_ends :
        Leaves
          (modify (λ d. record d { tables = committed name d.tables }))
          t
          (λ a u. u ≡ committed name t)
          (λ e u. u ≡ t)
    done_ends = record { at = λ d p. ap (committed name) p }

loop_ends :
    (applied names : List String) {t : Tables}
    → Leaves
        (migrate_loop applied names)
        t
        (λ a u. u ≡ replay (pending applied names) t)
        (λ e u. Reached t (pending applied names) u)
unfolding migrate_loop pending replay
loop_ends applied [] {t} = record { at = λ d p. p }
loop_ends applied (name ∷ names) {t} = elim (Bool-cases (has name applied)) [
  | inl y ↦ rw y (loop_ends applied names)
  | inr n ↦ rw n (
      Wp-bind _ (Wp-weaken _ (apply_ends name) (λ a u q. q) (λ e u q. unmoved q)) (λ a u q. rw q (
        Wp-weaken _ (loop_ends applied names {t = committed name t}) (λ b v r. r)
          (λ e v r. ran r))))
]
  where
    unmoved : {t u : Tables} {ns : List String} → u ≡ t → Reached t ns u
    unmoved {t} {u} {ns} q = subst (λ x. Reached t ns x) (sym q) stopped

-- The scripts that a run of Migrate is there to apply.
abbrev pub due : List String → Tables → List String
due files t = pending t.schema_migrations (sort_strings files)

migrate_ends :
    (files : List String) {t : Tables}
    → Leaves
        (migrate files)
        t
        (λ a u. u ≡ replay (due files t) t)
        (λ e u. Reached t (due files t) u)
unfolding migrate
migrate_ends files {t} = then_query _ stopped (
    then_query _ stopped (record {
      at = λ d p.
          (rows_known d.tables.schema_migrations (ap (λ (x : Tables). x.schema_migrations) p)).at d
            p;
    }))
  where
    rows_known :
        (applied : List String)
        → applied ≡ t.schema_migrations
        → Leaves
            (migrate_loop applied (sort_strings files))
            t
            (λ a u. u ≡ replay (due files t) t)
            (λ e u. Reached t (due files t) u)
    rows_known applied q = rw q (loop_ends t.schema_migrations (sort_strings files))

replayed : (names : List String) (t : Tables) → Reached t names (replay names t)
unfolding replay
replayed [] t = stopped
replayed (name ∷ names) t = ran (replayed names (committed name t))

-- However Migrate ends, the scripts that took effect are the first of the pending ones in the order of
-- their names, up to some point, each with its row.
pub migrate-Reached :
    (files : List String) (d : Database)
    → Reached d.tables (due files d.tables) (migrate files d).1.tables
migrate-Reached files d = both_of_Wp _ {P = λ u. Reached d.tables (due files d.tables) u} d (
    Wp-weaken _ (migrate_ends files)
      (λ a u q. subst (λ x. Reached d.tables (due files d.tables) x) (sym q) (replayed _ _))
      (λ e u q. q))

pub migrate_ok :
    (files : List String) (d : Database)
    → (migrate files d).0 ≡ ok tt
    → (migrate files d).1.tables ≡ replay (due files d.tables) d.tables
migrate_ok files d h = ok_of_Wp _ d (migrate_ends files) h
