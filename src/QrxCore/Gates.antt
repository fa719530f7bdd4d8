-- ===== src/QrxCore/Gates.antt =====
-- agent/updates/qrx_core.go: what a switch and an update of QRX Core have passed before they write.
use qrx_node_suite.Prelude.{◌≡◌, refl, inl, inr, sym, String, true, Option, none, some, ◌==◌}
use mathlib.Core.Path.{subst}
use qrx_node_suite.Errors.{Err, ok, profile_required}
use qrx_node_suite.Exec.{Exec, done, fail}
use qrx_node_suite.Exec.Wp.{both_of_Wp, ok_of_Wp}
use qrx_node_suite.Version.Profile.{
  CompatibilityProfile, SwitchRefusal, check_switch_safety, safety_incompatible, safety_unknown,
}
use qrx_node_suite.Store.{read_current}
use qrx_node_suite.Store.Prune.{installed_versions}
use qrx_node_suite.Store.Live.{IsLive, Active}
use qrx_node_suite.Store.Steps.{read_current_ends, then_validate, then_syscall}
use qrx_node_suite.World.{World, HistoryRecord, shown, on_store}
use qrx_node_suite.World.Ends.{
  View, Frames, Frames-weaken, then_frames, guard-Frames, check-Frames, done-Frames, fail-Frames,
  on_store-Frames, Any,
}
use qrx_node_suite.World.OnDisk.{OnDisk, weaker}
use qrx_node_suite.QrxCore.{
  QrxCoreUpdateManager, SwitchOptions, refusal, require_profile, switch_version,
  activate_and_validate,
}
use qrx_node_suite.QrxCore.Live.{Between, Healthy, activate-OnDisk}

-- A profile of exactly this version lets the switch pass.
pub record Safe (opts : SwitchOptions) (version : String) : Type 0 where
  pub profile : CompatibilityProfile
  pub is_given : opts.profile ≡ some profile
  pub is_for : (profile.qrx_core_version == version) ≡ true
  pub is_safe : check_switch_safety profile opts.expert_override ≡ none

pub refusal-none : (o : Option SwitchRefusal) → refusal o ≡ none → o ≡ none
refusal-none none h = refl
refusal-none (some safety_incompatible) h = cc
refusal-none (some safety_unknown) h = cc

pub current-Frames : {v : View} → Frames (on_store read_current) v (λ cur. cur ≡ v.1.current)
current-Frames = on_store-Frames (read_current_ends (λ e. refl))

installed-Frames : {v : View} → Frames (on_store installed_versions) v Any
unfolding installed_versions
installed-Frames =
    on_store-Frames
      (then_validate _ (λ e. refl) (then_syscall _ (λ e. refl) (record { at = λ s p. (p, tt) })))

module _ (m : QrxCoreUpdateManager) where
  pub profile-Frames :
      (opts : SwitchOptions) {v : View}
      → Frames (require_profile m opts) v (λ p. opts.profile ≡ some p)
  unfolding require_profile
  profile-Frames opts {v} = go opts.profile refl
    where
      go :
          (o : Option CompatibilityProfile)
          → opts.profile ≡ o
          → Frames
              (elim o as (λ k. Exec World CompatibilityProfile) [
                | none ↦ fail profile_required
                | some p ↦ done p
              ])
              v
              (λ p. opts.profile ≡ some p)
      go none e = fail-Frames profile_required
      go (some p) e = Frames-weaken (done-Frames p) (λ d q. rw q e)

  -- SwitchVersion up to its first write.
  switch-OnDisk :
      (opts : SwitchOptions) (target : String) {v : View}
      → IsLive v.1
      → OnDisk
          (switch_version m target opts)
          v
          (λ d. Safe opts target × Active target d × Healthy m)
          (Between v.1.current target)
  unfolding switch_version
  switch-OnDisk opts target {v} l = record {
    ends = then_frames _ (profile-Frames opts) bad λ p given.
        then_frames _ (guard-Frames _ _) bad λ a1 for. then_frames _ (check-Frames _) bad λ a2 safe.
          then_frames _ installed-Frames bad λ installed a3.
            then_frames _ (guard-Frames _ _) bad λ a4 there.
              then_frames _ current-Frames bad λ cur q.
                (weaker (from_here cur q)
                  (λ d r. (
                    record {
                      profile = p;
                      is_given = given;
                      is_for = for;
                      is_safe = refusal-none _ safe;
                    },
                    r.0,
                    r.1,
                  ))
                  (λ d r. r)).ends;
  }
    where
      here : Between v.1.current target v.1
      here = record { live = l; between = inl refl }

      bad : Err → Between v.1.current target v.1
      bad e = here

      from_here :
          (cur : Option String)
          → cur ≡ v.1.current
          → OnDisk
              (activate_and_validate m target (shown cur) true)
              v
              (λ d. Active target d × Healthy m)
              (Between v.1.current target)
      from_here cur q =
          subst
            (λ (c : Option String).
              OnDisk (activate_and_validate m target (shown c) true) v
                (λ d. Active target d × Healthy m) (Between v.1.current target))
            (sym q) (activate-OnDisk m v.1.current target true here (inl refl))

  -- However SwitchVersion ends, whatever call of the store, the process, the probe or the history fails:
  -- the active version is the one before or the target, and it and the rollback target are on disk.
  pub switch_version-Between :
      (target : String) (opts : SwitchOptions) (w : World)
      → IsLive w.store.disk
      → Between w.store.disk.current target (switch_version m target opts w).1.store.disk
  switch_version-Between target opts w l =
      both_of_Wp _ {P = λ (u : View). Between w.store.disk.current target u.1} w
        (weaker (switch-OnDisk opts target l)
          (λ d q. record { live = q.1.live; between = inr q.1.on_version }) (λ d q. q)).ends

  -- A SwitchVersion that succeeds was given a profile of the target that lets it pass, left the target
  -- active with its release on disk, and got a healthy answer from the probe.
  pub switch_version_ok :
      (target : String) (opts : SwitchOptions) (w : World) {r : HistoryRecord}
      → IsLive w.store.disk
      → (switch_version m target opts w).0 ≡ ok r
      → Safe opts target × Active target (switch_version m target opts w).1.store.disk × Healthy m
  switch_version_ok target opts w l h = ok_of_Wp _ w (switch-OnDisk opts target l).ends h
