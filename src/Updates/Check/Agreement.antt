-- ===== src/Updates/Check/Agreement.antt =====
-- agent/updates/manager.go: what Check reports as available, Install accepts.
use qrx_node_suite.Prelude.{
  ℕ, List, ◌≡◌, ◌⊎◌, ◌∙◌, refl, arith, ap, sym, inl, inr, String, Bool, true, false, ◌||◌, Option,
  none, codes, ◌==◌, eq_iff, Bool-cases,
}
use mathlib.Core.Path.{subst}
use qrx_node_suite.Errors.{ok}
use qrx_node_suite.Exec.Wp.{Wp-weaken, both_of_Wp, ok_eq, ok_of_Wp}
use qrx_node_suite.Version.SemVer.{gt, compare_version, is_lt}
use qrx_node_suite.Version.SemVer.Order.{compare_version-flip}
use qrx_node_suite.Manifest.{Manifest}
use qrx_node_suite.Manifest.Verify.{check_not_downgrade}
use qrx_node_suite.Manifest.Verify.Gates.{check_not_downgrade_iff}
use qrx_node_suite.Store.{names}
use qrx_node_suite.World.{World, shown}
use qrx_node_suite.World.Ends.{view}
use qrx_node_suite.World.Yields.{IsWorking}
use qrx_node_suite.Policy.{channel}
use qrx_node_suite.Updates.Install.{Manager, InstallOptions, Offer, is_current, gates}
use qrx_node_suite.Updates.Install.Passing.{gates-Yields}
use qrx_node_suite.Updates.Install.Accepted.{Verified, Unlocked, InWindow, Accepted}
use qrx_node_suite.Updates.Check.{CheckResult, check_component}
use qrx_node_suite.Updates.Check.Settled.{IsInstallable, Reported, check-Frames}

-- Check writes nothing: the settings and the disk stay as they are, whatever it comes to.
pub check_component-reads :
    (m : Manager) (component : String) (w : World) → view (check_component m component w).1 ≡ view w
check_component-reads m component w =
    both_of_Wp _ w (Wp-weaken _ (check-Frames m component).ends (λ r u q. q.0) (λ e u q. q))

gt_self : (s : List ℕ) → gt s s ≡ false
unfolding gt
gt_self s = ground (arith, compare_version-flip s s)

gt_irrefl : (s t : String) → gt (codes s) (codes t) ≡ true → (t == s) ≡ false
gt_irrefl s t h = elim (Bool-cases (t == s)) [
  | inl y ↦ ground (arith, gt_self (codes s), ap codes ((eq_iff t s).0 y))
  | inr n ↦ n
]

gt-not_lt : (s t : List ℕ) → gt s t ≡ true → is_lt (compare_version s t) ≡ false
unfolding gt
gt-not_lt s t h = ground arith

newer-is_current :
    (m : Manager) (cur : Option String) (version : String)
    → (shown cur == "" || gt (codes version) (codes (shown cur))) ≡ true
    → is_current m cur version ≡ false
newer-is_current m cur version h = ground (arith, gt_irrefl version (shown cur))

newer-check_not_downgrade :
    (cur : Option String) (version : String) (allowed : Bool)
    → (shown cur == "" || gt (codes version) (codes (shown cur))) ≡ true
    → check_not_downgrade (shown cur) version allowed ≡ none
newer-check_not_downgrade cur version allowed h =
    (check_not_downgrade_iff (shown cur) version allowed).1
      (ground (arith, eq_iff (shown cur) "", gt-not_lt (codes version) (codes (shown cur))))

module _ (m : Manager) (component : String) (opts : InstallOptions) where
  -- What Check has read and verified makes an offer that passes the gates of Install.
  offer_of_report :
      (w : World) {r : CheckResult}
      → (rep : Reported m component (view w) r) → Unlocked m opts w.settings
      → InWindow m opts w.settings
      → names w.store.disk.previous r.latest ≡ false
      → (o : Offer) × (o.update.version ≡ r.latest)
        × (o.channel ≡ rep.followed)
        × Accepted m component opts (view w) o
  offer_of_report w {r} rep lock win prev =
      let j = rep.judged in
      (
        record {
          channel = rep.followed;
          manifest = j.manifest;
          update = j.update;
          current = w.store.disk.current;
          controller = rep.controller;
        },
        sym j.latest_is,
        refl,
        record {
          unlocked = lock;
          in_window = win;
          verified = same_manifest rep.verified j.fetched;
          is_offered = j.offered;
          pin = (rep.pin, rep.pinned_to, j.allowed);
          from_current = refl;
          is_new = newer-is_current m w.store.disk.current j.update.version j.newer;
          no_downgrade =
              newer-check_not_downgrade w.store.disk.current j.update.version opts.allow_downgrade
                j.newer;
          not_previous =
              subst (λ (x : String). names w.store.disk.previous x ≡ false) j.latest_is prev;
          compatible = j.in_ranges;
          controlled = rep.controlled;
          matrix_allows = j.matrix_allows;
        },
      )
    where
      same_manifest :
          {ch : String} {a b : Manifest}
          → Verified m w.settings ch a
          → ok a ≡ ok b
          → Verified m w.settings ch b
      same_manifest {ch} f e = subst (λ (x : Manifest). Verified m w.settings ch x) (ok_eq e) f

  -- What Check reports as available and not blocked, the gates of an Install of it let through: run
  -- where no call fails, on the settings and the disk that Check saw, with the source as it was, they
  -- return an offer of that version, from the channel of the settings. The options name that channel or
  -- none, the lock and the window let the Install through, and the version is not the rollback target.
  pub check_component-Accepted :
      (w u : World) {r : CheckResult}
      → (check_component m component w).0 ≡ ok r
      → IsInstallable r
      → (opts.channel ≡ "") ⊎ (channel component w.settings ≡ ok opts.channel)
      → Unlocked m opts w.settings
      → InWindow m opts w.settings
      → names w.store.disk.previous r.latest ≡ false
      → view u ≡ view w
      → IsWorking u
      → (o : Offer) × (o.update.version ≡ r.latest)
        × (channel component w.settings ≡ ok o.channel)
        × Accepted m component opts (view w) o
        × ((gates m component opts u).0 ≡ ok o)
  check_component-Accepted w u {r} h k on lock win prev same works =
      let rep = (ok_of_Wp _ w (check-Frames m component).ends h).1 k in
      let (o, of_version, c, acc) = offer_of_report w rep lock win prev in
      let followed : channel component w.settings ≡ ok o.channel = rep.on_channel ∙ ap ok (sym c) in
      (
        o,
        of_version,
        followed,
        acc,
        ((gates-Yields m component opts o acc followed (given o.channel on followed)).at u same
            works).0,
      )
    where
      given :
          (ch : String)
          → (opts.channel ≡ "") ⊎ (channel component w.settings ≡ ok opts.channel)
          → channel component w.settings ≡ ok ch
          → (opts.channel ≡ "") ⊎ (opts.channel ≡ ch)
      given ch (inl p) q = inl p
      given ch (inr p) q = inr (ok_eq (sym p ∙ q))
