-- ===== src/Storage/Prefix.antt =====
-- agent/storage/migrate.go: which scripts have run, however Migrate ends.
use qrx_node_suite.Prelude.{
  ◌≡◌, refl, ap, ◌∙◌, String, true, false, ◌||◌, List, [], ◌∷◌, ◌++◌, Bool-cases, inl, inr, arith,
  ◌==◌, eq_refl, eq_iff,
}
use qrx_node_suite.Errors.{ok}
use qrx_node_suite.Store.{has}
use qrx_node_suite.Store.Prune.{sort_strings}
use qrx_node_suite.Storage.{Database, Tables, committed, migrate}
use qrx_node_suite.Storage.Steps.{
  pending, replay, Reached, stopped, ran, due, migrate-Reached, migrate_ok,
}

has-append : (v w : String) (l : List String) → has v (l ++ (w ∷ [])) ≡ has v l || w == v
unfolding has
has-append v w [] = ground arith
has-append v w (x ∷ l) = let r = has-append v w l in ground arith

has-replay_row :
    (v : String) (names : List String) (t : Tables)
    → has v t.schema_migrations ≡ true
    → has v (replay names t).schema_migrations ≡ true
unfolding replay
has-replay_row v [] t h = h
has-replay_row v (name ∷ names) t h =
    has-replay_row v names (committed name t)
      (let r = has-append v name t.schema_migrations in ground arith)

has-replay :
    (v : String) (names : List String) (t : Tables)
    → has v names ≡ true
    → has v (replay names t).schema_migrations ≡ true
unfolding replay has
has-replay v [] t h = cc
has-replay v (name ∷ names) t h = elim (Bool-cases (name == v)) [
  | inl y ↦
      has-replay_row v names (committed name t)
        (let r = has-append v name t.schema_migrations in ground arith)
  | inr n ↦ has-replay v names (committed name t) (ground arith)
]

has-pending :
    (v : String) (applied names : List String)
    → has v names ≡ true
    → has v applied ≡ false
    → has v (pending applied names) ≡ true
unfolding pending has
has-pending v applied [] h n = cc
has-pending v applied (name ∷ names) h n = elim (Bool-cases (name == v)) [
  | inl y ↦
      let k = ap (λ (x : String). has x applied) ((eq_iff name v).0 y) ∙ n in rw k (ground arith)
  | inr m ↦
      let r = has-pending v applied names (ground arith) n in
      elim (Bool-cases (has name applied)) [ inl k ↦ rw k r | inr k ↦ rw k (ground arith) ]
]

pending-applied :
    (applied names : List String)
    → ((v : String) → has v names ≡ true → has v applied ≡ true)
    → pending applied names ≡ []
unfolding pending has
pending-applied applied [] h = refl
pending-applied applied (name ∷ names) h =
    rw (h name (self name names)) (pending-applied applied names (λ v k. h v (there v k)))
  where
    self : (n : String) (ns : List String) → has n (n ∷ ns) ≡ true
    self n ns = ground (arith, eq_refl n)

    there : (v : String) → has v names ≡ true → has v (name ∷ names) ≡ true
    there v k = ground arith

all_applied :
    (files : List String) (t : Tables) (v : String)
    → has v (sort_strings files) ≡ true
    → has v (replay (due files t) t).schema_migrations ≡ true
all_applied files t v h = elim (Bool-cases (has v t.schema_migrations)) [
  | inl y ↦ has-replay_row v (due files t) t y
  | inr n ↦
      has-replay v (due files t) t (has-pending v t.schema_migrations (sort_strings files) h n)
]

due_again : (files : List String) (t : Tables) → due files (replay (due files t) t) ≡ []
due_again files t =
    pending-applied (replay (due files t) t).schema_migrations (sort_strings files)
      (all_applied files t)

Reached-none : {t u : Tables} {names : List String} → Reached t names u → names ≡ [] → u ≡ t
Reached-none stopped e = refl
Reached-none (ran r) e = cc

-- A Migrate that succeeds ran every pending script, in the order of their names, and a later Migrate of
-- the same files changes nothing, whichever of its calls fail.
pub migrate-again :
    (files : List String) (d e : Database)
    → (migrate files d).0 ≡ ok tt
    → e.tables ≡ (migrate files d).1.tables
    → ((migrate files d).1.tables ≡ replay (due files d.tables) d.tables)
      × ((migrate files e).1.tables ≡ e.tables)
migrate-again files d e h same =
    let m = migrate_ok files d h in
    (
      m,
      Reached-none (migrate-Reached files e) (ap (due files) (same ∙ m) ∙ due_again files d.tables),
    )
