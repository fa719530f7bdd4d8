-- ===== src/Store/Prune.antt =====
-- agent/updates/store/store.go: InstalledVersions and Prune.
use qrx_node_suite.Prelude.{
  ℕ, ◌+◌, ◌≡◌, refl, String, Bool, true, false, ◌||◌, Option, none, some, List, [], ◌∷◌, ltb,
  if◌then◌else◌, codes, compare_codes, Ordering, arith, eq_iff, eq_refl, ◌==◌, ap, ◌∙◌, Bool-cases,
  inl, inr,
}
use mathlib.Core.List.{reverse}
use qrx_node_suite.Errors.{Err, io_failure}
use qrx_node_suite.Exec.Wp.{both_of_Wp}
use qrx_node_suite.Store.Live.{IsLive, Present}
use qrx_node_suite.Store.Releases.{has-without_ne, has_of_without}
use qrx_node_suite.Exec.{Exec, done, reads, ◌>>=◌, ◌>>◌}
use qrx_node_suite.Store.{
  Store, Disk, names, validate, syscall, read_current, read_previous, read_staged, remove_release,
  has, drop_release,
}
use qrx_node_suite.Store.Steps.{
  ends_done, Ends, then_validate, then_syscall, then_exact, then_same, read_current_ends,
  read_previous_ends, read_staged_ends, remove_release_ends,
}

-- sort.Strings.
insert_sorted : String → List String → List String
insert_sorted v [] = v ∷ []
insert_sorted v (w ∷ ws) = elim (compare_codes (codes v) (codes w)) [
  | Ordering.gt ↦ w ∷ insert_sorted v ws
  | _ ↦ v ∷ w ∷ ws
]

unfoldable pub sort_strings : List String → List String
unfolding insert_sorted
sort_strings [] = []
sort_strings (v ∷ vs) = insert_sorted v (sort_strings vs)

unfoldable pub installed_versions : Exec Store (List String)
unfolding validate syscall sort_strings compare_codes ◌>>=◌
installed_versions = do validate; syscall; reads (λ s. sort_strings s.releases)

-- The walk from the end of the sorted list, `extra` counting the spare versions kept so far.
pub prune_loop : ℕ → (String → Bool) → ℕ → List String → Exec Store (Unit {0})
unfolding remove_release ◌>>=◌
prune_loop retain keep extra [] = done tt
prune_loop retain keep extra (v ∷ vs) =
    let skip = prune_loop retain keep extra vs in
    let spare = prune_loop retain keep (extra + 1) vs in
    if keep v then skip else if ltb extra retain then spare else do remove_release v; skip

-- A negative `retain` is 0.
unfoldable pub prune : ℕ → Exec Store (Unit {0})
unfolding installed_versions read_current read_previous read_staged prune_loop
prune retain = do
  versions ← installed_versions
  cur ← read_current
  prev ← read_previous
  staged ← read_staged
  prune_loop retain (λ v. names cur v || names prev v || names staged v) 0 (reverse versions)

-- Nothing happened but that releases which need not be kept may be gone.
pub record Pruned (keep : String → Bool) (before after : Disk) : Type 0 where
  pub current_same : after.current ≡ before.current
  pub previous_same : after.previous ≡ before.previous
  pub staged_same : after.staged ≡ before.staged
  pub kept : (v : String) → keep v ≡ true → has v after.releases ≡ has v before.releases
  pub no_other : (v : String) → has v after.releases ≡ true → has v before.releases ≡ true

distinct : (keep : String → Bool) (v w : String) → keep v ≡ true → keep w ≡ false → (w == v) ≡ false
distinct keep v w h k = elim (Bool-cases (w == v)) [
  | inl y ↦ let e : keep w ≡ keep v = ap keep ((eq_iff w v).0 y) in cc
  | inr n ↦ n
]

Pruned-drop :
    (keep : String → Bool) (v : String) {d w : Disk}
    → keep v ≡ false
    → Pruned keep d w
    → Pruned keep d (drop_release v w)
Pruned-drop keep v {w} n p = record {
  current_same = p.current_same;
  previous_same = p.previous_same;
  staged_same = p.staged_same;
  kept = λ u h. has-without_ne u v w.releases (distinct keep u v h n) ∙ p.kept u h;
  no_other = λ u h. p.no_other u (has_of_without u v w.releases h);
}

prune_loop_ends :
    (retain : ℕ) (keep : String → Bool) (extra : ℕ) (vs : List String) {d w : Disk}
    → Pruned keep d w
    → Ends (prune_loop retain keep extra vs) w (λ a u. Pruned keep d u) (λ e u. Pruned keep d u)
unfolding prune_loop
prune_loop_ends retain keep extra [] p = ends_done tt p
prune_loop_ends retain keep extra (v ∷ vs) p = elim (Bool-cases (keep v)) [
  | inl y ↦ rw y (prune_loop_ends retain keep extra vs p)
  | inr n ↦ elim (Bool-cases (ltb extra retain)) [
    | inl y ↦ rw (n, y) (prune_loop_ends retain keep (extra + 1) vs p)
    | inr m ↦
        rw (n, m)
          (then_exact _ (remove_release_ends (λ e. p) v)
            (prune_loop_ends retain keep extra vs (Pruned-drop keep v n p)))
  ]
]

abbrev pub is_referenced : Disk → String → Bool
is_referenced d v = names d.current v || names d.previous v || names d.staged v

prune_ends :
    (retain : ℕ) {d : Disk}
    → Ends
        (prune retain)
        d
        (λ a u. Pruned (is_referenced d) d u)
        (λ e u. Pruned (is_referenced d) d u)
unfolding prune installed_versions
prune_ends retain {d} = then_same _ listed λ versions. then_exact _ (read_current_ends same) (
    then_exact _ (read_previous_ends same) (
      then_exact _ (read_staged_ends same)
        (prune_loop_ends retain (is_referenced d) 0 (reverse versions) (same io_failure))))
  where
    same : Err → Pruned (is_referenced d) d d
    same e = record {
      current_same = refl;
      previous_same = refl;
      staged_same = refl;
      kept = λ v h. refl;
      no_other = λ v h. h;
    }

    listed :
        Ends
          (do validate; syscall; reads (λ (s : Store). sort_strings s.releases))
          d
          (λ a w. w ≡ d)
          (λ e u. Pruned (is_referenced d) d u)
    listed = then_validate _ same (then_syscall _ same (record { at = λ s p. p }))

-- Whatever fails, Prune moves no pointer, keeps every release that a pointer names, and adds none.
pub prune-Pruned :
    (retain : ℕ) (s : Store) → Pruned (is_referenced s.disk) s.disk (prune retain s).1.disk
prune-Pruned retain s = both_of_Wp _ s (prune_ends retain)

Present-kept :
    (keep : String → Bool) {before after : Disk} (o : Option String)
    → Pruned keep before after
    → ((v : String) → names o v ≡ true → keep v ≡ true)
    → Present o before.releases
    → Present o after.releases
Present-kept keep none p k h = tt
Present-kept keep (some v) p k h = p.kept v (k v (eq_refl v)) ∙ h

-- Prune keeps the active version and the rollback target on disk, whatever fails.
pub prune-IsLive : (retain : ℕ) (s : Store) → IsLive s.disk → IsLive (prune retain s).1.disk
prune-IsLive retain s h =
    let p = prune-Pruned retain s in
    record {
      current_live =
          rw p.current_same
            (Present-kept (is_referenced s.disk) s.current p (λ v n. ground arith) h.current_live);
      previous_live =
          rw p.previous_same (
            Present-kept (is_referenced s.disk) s.previous p (λ v n. ground arith) h.previous_live);
    }
