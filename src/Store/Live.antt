-- ===== src/Store/Live.antt =====
-- The versions that the active and the rollback pointer name have their release directories.
use qrx_node_suite.Prelude.{
  ◌≡◌, refl, sym, ap, ◌∙◌, String, Bool, true, false, not, Option, none, some, List, ◌∷◌, arith,
  if◌then◌else◌, eq_iff,
}
use mathlib.Core.Path.{subst}
use qrx_node_suite.Errors.{Err, ok}
use qrx_node_suite.Store.{
  Store, Disk, add_release, drop_release, set_pointer, pointer_staged, switch_from, has, without,
  names, read_current, read_previous, stage, discard_staged, promote, promote_version,
  rollback_to_previous,
}
use qrx_node_suite.Exec.Wp.{Wp-bind, Wp-weaken, Wp_of_both, both_of_Wp, ok_of_Wp}
use qrx_node_suite.Store.Steps.{
  Ends, then_validate, then_guard, then_exact, read_current_ends, read_previous_ends, write_ends,
  ends_exact, mkdir_ends, stat_ends,
}
use qrx_node_suite.Store.Releases.{has-without_ne, has-insert, has-insert_self}

abbrev pub Present : Option String → List String → Type 0
Present none l = Unit
Present (some v) l = has v l ≡ true

pub record IsLive (d : Disk) : Type 0 where
  pub current_live : Present d.current d.releases
  pub previous_live : Present d.previous d.releases

-- The version is active, and its release and the rollback target's are on disk.
pub record Active (version : String) (d : Disk) : Type 0 where
  pub live : IsLive d
  pub on_version : d.current ≡ some version

-- A pointer does not name the staged version.
abbrev pub Apart : Option String → Option String → Type 0
Apart none p = Unit
Apart (some v) p = names p v ≡ false

-- What Stage establishes: the staged release exists, and no live pointer names it.
pub record IsSpare (d : Disk) : Type 0 where
  pub apart_current : Apart d.staged d.current
  pub apart_previous : Apart d.staged d.previous
  pub staged_present : Present d.staged d.releases

Present-insert :
    (v : String) (o : Option String) (l : List String)
    → Present o l
    → Present o (if has v l then l else v ∷ l)
Present-insert v none l h = tt
Present-insert v (some w) l h = has-insert w v l h

Present-without :
    (v : String) (o : Option String) (l : List String)
    → Present o l
    → names o v ≡ false
    → Present o (without v l)
Present-without v none l h a = tt
Present-without v (some w) l h a = ground (arith, has-without_ne w v l, eq_iff w v, eq_iff v w)

IsLive-add : (v : String) {d : Disk} → IsLive d → IsLive (add_release v d)
IsLive-add v {d} h = record {
  current_live = Present-insert v d.current d.releases h.current_live;
  previous_live = Present-insert v d.previous d.releases h.previous_live;
}

-- A release that no live pointer names can go.
IsLive-drop :
    (v : String) {d : Disk}
    → IsLive d
    → names d.current v ≡ false
    → names d.previous v ≡ false
    → IsLive (drop_release v d)
IsLive-drop v {d} h a b = record {
  current_live = Present-without v d.current d.releases h.current_live a;
  previous_live = Present-without v d.previous d.releases h.previous_live b;
}

not-true : {b : Bool} → not b ≡ true → b ≡ false
not-true h = ground arith

after_discard : Option String → List String → List String
after_discard none l = l
after_discard (some v) l = without v l

Spare_without :
    (o p : Option String) (l : List String)
    → Present p l
    → Apart o p
    → Present p (after_discard o l)
unfolding after_discard
Spare_without none p l h a = h
Spare_without (some v) p l h a = Present-without v p l h a

-- Stage keeps the live releases; when it succeeds the staged release is there and is not live.
pub stage_ends :
    (v : String) {d : Disk}
    → IsLive d
    → Ends
        (stage v)
        d
        (λ a w.
          IsLive w
          × IsSpare w
          × (w.staged ≡ some v)
          × (w.unlink_fails ≡ d.unlink_fails)
          × (w.current ≡ d.current)
          × (w.previous ≡ d.previous))
        (λ e w. IsLive w)
unfolding stage
stage_ends v {d} h = then_validate _ bad (
    then_exact _ (read_current_ends bad) (
      then_guard _ _ _ bad λ a. then_exact _ (read_previous_ends bad) (
        then_guard _ _ _ bad λ b.
          then_exact _ (mkdir_ends bad v)
            (ends_exact (write_ends (λ e. IsLive-add v h) pointer_staged v) (fresh a b)))))
  where
    bad : Err → IsLive d
    bad e = h

    fresh :
        not (names d.current v) ≡ true
        → not (names d.previous v) ≡ true
        → let w = set_pointer pointer_staged (some v) (add_release v d) in
          IsLive w
          × IsSpare w
          × (w.staged ≡ some v)
          × (w.unlink_fails ≡ d.unlink_fails)
          × (w.current ≡ d.current)
          × (w.previous ≡ d.previous)
    fresh a b = (
      record {
        current_live = (IsLive-add v h).current_live;
        previous_live = (IsLive-add v h).previous_live;
      },
      record {
        apart_current = not-true a;
        apart_previous = not-true b;
        staged_present = has-insert_self v d.releases;
      },
      refl,
      refl,
      refl,
      refl,
    )

-- Stage keeps the live releases, whichever of its steps fails.
pub stage-IsLive : (v : String) (s : Store) → IsLive s.disk → IsLive (stage v s).1.disk
stage-IsLive v s h = both_of_Wp _ s (Wp-weaken _ (stage_ends v h) (λ a w q. q.0) (λ e w l. l))

-- A Stage that succeeds, from a store whose active version and rollback target are on disk, leaves
-- the staged pointer on the version, its release on disk, and neither of the two pointers on it.
pub stage-IsSpare :
    (v : String) (s : Store)
    → IsLive s.disk
    → (stage v s).0 ≡ ok tt
    → IsSpare (stage v s).1.disk × ((stage v s).1.staged ≡ some v)
stage-IsSpare v s h e = let (l, sp, st, fl, c, p) = ok_of_Wp _ s (stage_ends v h) e in (sp, st)

-- Promote keeps the active version and the rollback target on disk, whichever of its steps fails,
-- from a store in which they are and the staged release is spare.
pub promote-IsLive : (s : Store) → IsLive s.disk → IsSpare s.disk → IsLive (promote s).1.disk
unfolding promote
promote-IsLive s h k = ground arith

-- RollbackToPrevious keeps the active version and the rollback target on disk, whichever of its
-- steps fails.
pub rollback_to_previous-IsLive :
    (s : Store) → IsLive s.disk → IsLive (rollback_to_previous s).1.disk
unfolding rollback_to_previous
rollback_to_previous-IsLive s h = ground arith

switch_from-IsLive :
    (v : String) (s : Store)
    → IsLive s.disk
    → has v s.releases ≡ true
    → IsLive (switch_from v s.current s).1.disk
unfolding switch_from
switch_from-IsLive v s h p = ground arith

pub promote_version_ends :
    (v : String) {d : Disk}
    → IsLive d
    → Ends (promote_version v) d (λ a w. IsLive w) (λ e w. IsLive w)
unfolding promote_version
promote_version_ends v {d} h = then_validate _ bad (
    Wp-bind _ (stat_ends bad v) λ a w (p, q).
      then_exact _ (read_current_ends (λ e. subst IsLive (sym p) h)) (
        Wp_of_both _ (λ s e.
          subst (λ (x : Option String). IsLive (switch_from v x s).1.disk)
            (ap (λ (y : Disk). y.current) e)
            (switch_from-IsLive v s (subst IsLive (sym (e ∙ p)) h)
              (subst (λ (y : Disk). has v y.releases ≡ true) (sym (e ∙ p)) q)))))
  where
    bad : Err → IsLive d
    bad e = h

-- PromoteVersion keeps the active version and the rollback target on disk, whichever of its steps
-- fails: it switches only to a version that is on disk.
pub promote_version-IsLive :
    (v : String) (s : Store) → IsLive s.disk → IsLive (promote_version v s).1.disk
promote_version-IsLive v s h = both_of_Wp _ s (promote_version_ends v h)

-- DiscardStaged keeps the active version and the rollback target on disk where the staged release
-- is spare, whichever of its steps fails.
pub discard_staged-IsLive :
    (b : Bool) (s : Store) → IsLive s.disk → IsSpare s.disk → IsLive (discard_staged b s).1.disk
unfolding discard_staged after_discard
discard_staged-IsLive b s h k = ground (
  arith,
  Spare_without s.staged s.current s.releases,
  Spare_without s.staged s.previous s.releases,
)

pub read_current-IsLive : (s : Store) → IsLive s.disk → IsLive (read_current s).1.disk
unfolding read_current
read_current-IsLive s h = ground arith

pub read_previous-IsLive : (s : Store) → IsLive s.disk → IsLive (read_previous s).1.disk
unfolding read_previous
read_previous-IsLive s h = ground arith
