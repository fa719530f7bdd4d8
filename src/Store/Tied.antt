-- ===== src/Store/Tied.antt =====
-- What the pointers and the releases of a component can become while one version is installed.
use qrx_node_suite.Prelude.{
  ℕ, ◌≡◌, ◌≢◌, ◌⊎◌, ◌∙◌, refl, sym, inl, inr, String, Bool, true, not, Option, none, some, List,
  ◌∷◌, arith, if◌then◌else◌, eq_iff,
}
use mathlib.Core.Path.{subst}
use qrx_node_suite.Errors.{Err, already_active, already_previous}
use qrx_node_suite.Store.{
  Store, Disk, has, without, names, add_release, set_pointer, pointer_staged, stage, discard_staged,
  promote, rollback_to_previous,
}
use qrx_node_suite.Store.Releases.{has_of_without}
use qrx_node_suite.Store.Prune.{prune, prune-Pruned}
use qrx_node_suite.Store.Steps.{
  Ends, then_validate, then_guard, then_exact, ends_exact, read_current_ends, read_previous_ends,
  mkdir_ends, write_ends,
}

-- The release is the version's, or was there before.
abbrev pub Told : String → List String → List String → Type 0
Told version old new = (x : String) → has x new ≡ true → (x ≡ version) ⊎ (has x old ≡ true)

-- A pointer that names the version, or what one of the two live pointers named before.
abbrev pub OneOf : String → Disk → Option String → Type 0
OneOf version b p = (p ≡ some version) ⊎ (p ≡ b.current) ⊎ (p ≡ b.previous)

-- What the disk shows after work on the version that began on the disk `b`.
pub record Tied (version : String) (b d : Disk) : Type 0 where
  pub current_from : OneOf version b d.current
  pub previous_from : OneOf version b d.previous
  pub staged_from : (d.staged ≡ none) ⊎ (d.staged ≡ some version) ⊎ (d.staged ≡ b.staged)
  pub releases_from : Told version b.releases d.releases

-- The same, where nothing but the version is staged.
pub record Ready (version : String) (b d : Disk) : Type 0 where
  pub tied : Tied version b d
  pub staged_is : (d.staged ≡ none) ⊎ (d.staged ≡ some version)

Told_insert : (v : String) (l : List String) → Told v l (if has v l then l else v ∷ l)
unfolding has
Told_insert v l x h = ground (arith, eq_iff v x)

-- What one call of Promote can do to the disk, whatever fails.
promote_moves :
    (s : Store)
    → let d = (promote s).1.disk in
      (d.releases ≡ s.releases)
      × ((d.current ≡ s.current) ⊎ ((d.current ≡ s.staged) × (s.staged ≢ none)))
      × ((d.previous ≡ s.previous) ⊎ (d.previous ≡ s.current))
      × ((d.staged ≡ none) ⊎ (d.staged ≡ s.staged))
unfolding promote
promote_moves s = ground arith

rollback_moves :
    (s : Store)
    → let d = (rollback_to_previous s).1.disk in
      (d.releases ≡ s.releases)
      × ((d.current ≡ s.current) ⊎ (d.current ≡ s.previous))
      × ((d.previous ≡ s.previous) ⊎ (d.previous ≡ s.current))
      × (d.staged ≡ s.staged)
unfolding rollback_to_previous
rollback_moves s = ground arith

discard_moves :
    (f : Bool) (s : Store)
    → let d = (discard_staged f s).1.disk in
      (d.current ≡ s.current)
      × (d.previous ≡ s.previous)
      × ((d.staged ≡ none) ⊎ (d.staged ≡ s.staged))
unfolding discard_staged
discard_moves f s = ground arith

less : Option String → List String → List String
less none l = l
less (some v) l = without v l

has_of_less :
    (o : Option String) (l : List String) (x : String) → has x (less o l) ≡ true → has x l ≡ true
unfolding less
has_of_less none l x h = h
has_of_less (some v) l x h = has_of_without x v l h

discard_drops :
    (f : Bool) (s : Store)
    → let l = (discard_staged f s).1.releases in (l ≡ s.releases) ⊎ (l ≡ less s.staged s.releases)
unfolding discard_staged less
discard_drops f s = ground arith

discard-has :
    (f : Bool) (s : Store) (x : String)
    → has x (discard_staged f s).1.releases ≡ true
    → has x s.releases ≡ true
discard-has f s x h = elim (discard_drops f s) [
  | inl p ↦ subst (λ l. has x l ≡ true) p h
  | inr p ↦ has_of_less s.staged s.releases x (subst (λ l. has x l ≡ true) p h)
]

module _ (v : String) (b : Disk) where
  pub start-Tied : Tied v b b
  start-Tied = record {
    current_from = inr (inl refl);
    previous_from = inr (inr refl);
    staged_from = inr (inr refl);
    releases_from = λ x h. inr h;
  }

  bad : Err → Tied v b b
  bad e = start-Tied

  made : Tied v b (add_release v b)
  made = record {
    current_from = inr (inl refl);
    previous_from = inr (inr refl);
    staged_from = inr (inr refl);
    releases_from = Told_insert v b.releases;
  }

  staged : Ready v b (set_pointer pointer_staged (some v) (add_release v b))
  staged = record {
    tied = record {
      current_from = inr (inl refl);
      previous_from = inr (inr refl);
      staged_from = inr (inl refl);
      releases_from = Told_insert v b.releases;
    };
    staged_is = inr refl;
  }

  pub stage-Ready : Ends (stage v) b (λ a d. Ready v b d) (λ e d. Tied v b d)
  unfolding stage
  stage-Ready = then_validate _ bad (
      then_exact _ (read_current_ends bad) (
        then_guard _ (not (names b.current v)) (already_active v) bad λ p.
          then_exact _ (read_previous_ends bad) (
            then_guard _ (not (names b.previous v)) (already_previous v) bad λ q.
              then_exact _ (mkdir_ends bad v)
                (ends_exact (write_ends (λ e. made) pointer_staged v) staged))))

  moved :
      {d e : Disk}
      → Ready v b d
      → Told v b.releases e.releases
      → OneOf v b e.current
      → OneOf v b e.previous
      → (e.staged ≡ none) ⊎ (e.staged ≡ d.staged)
      → Ready v b e
  moved {d} {e} k rel cur prev st =
      let is = spare st k.staged_is in
      record {
        tied = record {
          current_from = cur;
          previous_from = prev;
          staged_from = first_two is;
          releases_from = rel;
        };
        staged_is = is;
      }
    where
      spare :
          (e.staged ≡ none) ⊎ (e.staged ≡ d.staged)
          → (d.staged ≡ none) ⊎ (d.staged ≡ some v)
          → (e.staged ≡ none) ⊎ (e.staged ≡ some v)
      spare p q = ground arith

      first_two :
          (e.staged ≡ none) ⊎ (e.staged ≡ some v)
          → (e.staged ≡ none) ⊎ (e.staged ≡ some v) ⊎ (e.staged ≡ b.staged)
      first_two (inl p) = inl p
      first_two (inr p) = inr (inl p)

  is_OneOf : {p q : Option String} → p ≡ q → OneOf v b q → OneOf v b p
  is_OneOf h k = subst (OneOf v b) (sym h) k

  pub promote-Ready : (s : Store) → Ready v b s.disk → Ready v b (promote s).1.disk
  promote-Ready s k =
      let (rel, cur, prev, st) = promote_moves s in
      moved k (subst (Told v b.releases) (sym rel) k.tied.releases_from) (active cur k.staged_is)
        (elim prev [
          | inl p ↦ is_OneOf p k.tied.previous_from
          | inr p ↦ is_OneOf p k.tied.current_from
        ])
        st
    where
      active :
          let d = (promote s).1.disk in
          (d.current ≡ s.current) ⊎ ((d.current ≡ s.staged) × (s.staged ≢ none))
          → (s.staged ≡ none) ⊎ (s.staged ≡ some v)
          → OneOf v b (promote s).1.disk.current
      active (inl p) q = is_OneOf p k.tied.current_from
      active (inr (p, n)) (inl q) = elim (n q) [ ]
      active (inr (p, n)) (inr q) = inl (p ∙ q)

  pub rollback-Ready : (s : Store) → Ready v b s.disk → Ready v b (rollback_to_previous s).1.disk
  rollback-Ready s k =
      let (rel, cur, prev, st) = rollback_moves s in
      moved k (subst (Told v b.releases) (sym rel) k.tied.releases_from)
        (elim cur [
          | inl p ↦ is_OneOf p k.tied.current_from
          | inr p ↦ is_OneOf p k.tied.previous_from
        ])
        (elim prev [
          | inl p ↦ is_OneOf p k.tied.previous_from
          | inr p ↦ is_OneOf p k.tied.current_from
        ])
        (inr st)

  pub discard-Ready :
      (f : Bool) (s : Store) → Ready v b s.disk → Ready v b (discard_staged f s).1.disk
  discard-Ready f s k =
      let (cur, prev, st) = discard_moves f s in
      moved k (λ x h. k.tied.releases_from x (discard-has f s x h))
        (is_OneOf cur k.tied.current_from) (is_OneOf prev k.tied.previous_from) st

  pub prune-Ready : (n : ℕ) (s : Store) → Ready v b s.disk → Ready v b (prune n s).1.disk
  prune-Ready n s k =
      let p = prune-Pruned n s in
      moved k (λ x h. k.tied.releases_from x (p.no_other x h))
        (is_OneOf p.current_same k.tied.current_from)
        (is_OneOf p.previous_same k.tied.previous_from) (inr p.staged_same)
