-- ===== src/Store/Promote.antt =====
-- What Promote and RollbackToPrevious leave behind, whichever of their steps fails.
use qrx_node_suite.Prelude.{◌≡◌, ◌≢◌, ◌⊎◌, String, true, false, Option, none, some, arith}
use qrx_node_suite.Errors.{Err, ok, err}
use qrx_node_suite.Store.Releases.{has-without_self}
use qrx_node_suite.Store.{Store, has, promote, rollback_to_previous, discard_staged}

-- The rollback target after a switch away from `cur`.
abbrev pub demoted : Option String → Option String → Option String
demoted none prev = prev
demoted (some cur) prev = some cur

-- Every outcome of Promote, failures included: nothing moved; only `previous` moved, onto the
-- version still active; or the staged version is active and the old one is the rollback target.
pub promote_outcomes :
    (s : Store)
    → let t = (promote s).1 in
      ((t.current ≡ s.current) × (t.previous ≡ s.previous))
      ⊎ ((t.current ≡ s.current) × (t.previous ≡ demoted s.current s.previous))
      ⊎ ((t.current ≡ s.staged) × (t.previous ≡ demoted s.current s.previous))
unfolding promote
promote_outcomes s = ground arith

-- A Promote that succeeds had a staged version, and did the whole switch.
pub promote_ok :
    (s : Store)
    → (promote s).0 ≡ ok tt
    → let t = (promote s).1 in
      (s.staged ≢ none)
      × (t.current ≡ s.staged)
      × (t.previous ≡ demoted s.current s.previous)
      × (t.staged ≡ none)
      × (t.releases ≡ s.releases)
unfolding promote
promote_ok s h = ground arith

-- Every outcome of RollbackToPrevious, failures included.
pub rollback_outcomes :
    (s : Store)
    → let t = (rollback_to_previous s).1 in
      ((t.current ≡ s.current) × (t.previous ≡ s.previous))
      ⊎ ((t.current ≡ s.previous) × (t.previous ≡ s.previous))
      ⊎ ((t.current ≡ s.previous) × (t.previous ≡ demoted s.current s.previous))
unfolding rollback_to_previous
rollback_outcomes s = ground arith

pub rollback_ok :
    (s : Store)
    → (rollback_to_previous s).0 ≡ ok tt
    → let t = (rollback_to_previous s).1 in
      (s.previous ≢ none)
      × (t.current ≡ s.previous)
      × (t.previous ≡ demoted s.current s.previous)
      × (t.staged ≡ s.staged)
      × (t.releases ≡ s.releases)
unfolding rollback_to_previous
rollback_ok s h = ground arith

-- A second rollback undoes the first: both pointers come back.
pub rollback_twice :
    (s : Store)
    → let t = (rollback_to_previous s).1 in
      let u = (rollback_to_previous t).1 in
      s.current ≢ none
      → (rollback_to_previous s).0 ≡ ok tt
      → (rollback_to_previous t).0 ≡ ok tt
      → (u.current ≡ s.current) × (u.previous ≡ s.previous)
rollback_twice s c h k = ground (arith, rollback_ok s h, rollback_ok (rollback_to_previous s).1 k)

-- A Promote that fails after it activated the staged version leaves the staged pointer.
promote_err_staged :
    (s : Store) (v : String) (e : Err)
    → s.staged ≡ some v
    → s.current ≢ some v
    → (promote s).0 ≡ err e
    → (promote s).1.current ≡ some v
    → (promote s).1.staged ≡ some v
unfolding promote
promote_err_staged s v e st ne h c = ground arith

-- Install and Update discard the staged release when Promote fails. If Promote failed after it
-- activated the staged version, a discard that succeeds deletes the release that is now active.
pub promote-discard_active :
    (s : Store) (v : String) (e : Err)
    → let t = (promote s).1 in
      let u = (discard_staged true t).1 in
      s.staged ≡ some v
      → s.current ≢ some v
      → (promote s).0 ≡ err e
      → t.current ≡ some v
      → (discard_staged true t).0 ≡ ok tt
      → (u.current ≡ some v) × (has v u.releases ≡ false)
unfolding discard_staged
promote-discard_active s v e st ne h c k =
    ground (arith, promote_err_staged s v e st ne h c, has-without_self v (promote s).1.releases)
