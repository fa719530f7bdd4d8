-- ===== src/Updates/Install/Live.antt =====
-- agent/updates/manager.go, Install: the releases that the pointers name stay on disk, and a success is
-- the offered version.
use qrx_node_suite.Prelude.{ℕ, ◌≡◌, sym, String, Bool, true, false, if◌then◌else◌}
use mathlib.Core.Path.{subst}
use qrx_node_suite.Errors.{Err, ok, start_failed, health_check_failed}
use qrx_node_suite.Exec.{Exec, ◌otherwise◌, ignoring, done}
use qrx_node_suite.Exec.Wp.{Wp_of_both, both_of_Wp, ok_of_Wp}
use qrx_node_suite.Policy.{Settings}
use qrx_node_suite.Store.{Disk, promote, rollback_to_previous}
use qrx_node_suite.Store.Prune.{prune}
use qrx_node_suite.Store.Live.{Active, IsLive, IsSpare, rollback_to_previous-IsLive}
use qrx_node_suite.Store.Reliable.{
  IsReliable, Staged, stage-Staged, promote-Staged, discard_ends, prune-Active,
}
use qrx_node_suite.World.{World, outside, on_store, sets}
use qrx_node_suite.World.Ends.{
  View, view, Frames, Frames-bind, Frames-otherwise, outside-Frames, insert-Frames, done-Frames,
  fail-Frames, audit-Frames, Frames-weaken, ignoring-Frames, Any, then_frames,
}
use qrx_node_suite.World.OnDisk.{
  OnDisk, stored, still, stuck, ignored, setting, next, handled, weaker,
}
use qrx_node_suite.Updates.{stop_if}
use qrx_node_suite.Updates.Install.{
  Manager, InstallOptions, InstallResult, Offer, report_failure, discard_and_report, stage_artifact,
  roll_back, rollback_and_restart, install_self, install_managed, carry_out, install,
}
use qrx_node_suite.Updates.Install.Accepted.{Accepted, gates-Frames}
use qrx_node_suite.Updates.Install.Safety.{Authentic, download-Frames}
use qrx_node_suite.Updates.Install.Work.{report-Frames}

module _ (m : Manager) (component : String) (o : Offer) where
  discarded :
      {A : Type 0} {R : Disk → Type 0} (e : Err) {v : View}
      → IsLive v.1 × IsSpare v.1
      → OnDisk (discard_and_report m {A = A} component o e) v R IsLive
  unfolding discard_and_report
  discarded e k =
      next _ (ignored (stored (discard_ends k.0 k.1)))
        (λ a u q. stuck (report-Frames m component o e) q)

  stage-OnDisk :
      {v : View}
      → IsReliable v.1
      → IsLive v.1
      → OnDisk (stage_artifact m component o) v (Staged o.update.version) IsLive
  unfolding stage_artifact
  stage-OnDisk r l =
      next _
        (handled _ (stored (stage-Staged o.update.version r l))
          (λ e u q. stuck (report-Frames m component o e) q))
        λ a u st.
          handled _ (still (Frames-bind _ outside-Frames (λ b p. outside-Frames)) st)
            (λ e w k. discarded e (k.live, k.spare))

  -- A step that does not touch the disk, after the switch.
  calm :
      {A : Type 0} {x : Exec World A} {P : A → Type 0} {v : View}
      → Frames x v P
      → Active o.update.version v.1
      → OnDisk x v (Active o.update.version) IsLive
  calm h k = weaker (still h k) (λ d q. q) (λ d q. q.live)

  calm_setting :
      (f : Settings → Settings) {v : View}
      → Active o.update.version v.1
      → OnDisk (sets f) v (Active o.update.version) IsLive
  calm_setting f k = weaker (setting f k) (λ d q. q) (λ d q. q.live)

  self-OnDisk :
      {v : View}
      → Staged o.update.version v.1
      → OnDisk (install_self m component o) v (Active o.update.version) IsLive
  unfolding install_self
  self-OnDisk st =
      next _ (handled _ (stored (promote-Staged o.update.version st)) (λ e u k. discarded e k))
        λ a u k. next _ (calm (insert-Frames _) k) λ id u1 k1.
          next _ (calm_setting _ k1)
            λ a2 u2 k2. next _ (calm_setting _ k2) λ a3 u3 k3. calm (done-Frames _) k3

  back-OnDisk : {v : View} → IsLive v.1 → OnDisk (on_store rollback_to_previous) v IsLive IsLive
  back-OnDisk l =
      stored
        (Wp_of_both _ {P = IsLive} (λ s p. rollback_to_previous-IsLive s (subst IsLive (sym p) l)))

  roll_back-OnDisk :
      {A : Type 0} {R : Disk → Type 0} (e : Err) {v : View}
      → IsLive v.1
      → OnDisk (roll_back m {A = A} component o e) v R IsLive
  unfolding roll_back rollback_and_restart
  roll_back-OnDisk e l =
      next _ (ignored (next _ (back-OnDisk l) (λ a u q. still outside-Frames q)))
        λ a u q. stuck (Frames-bind _ (ignoring-Frames (insert-Frames _)) (λ b p. fail-Frames e)) q

  stop-Frames : (b : Bool) {v : View} → Frames (stop_if b) v Any
  stop-Frames true = outside-Frames
  stop-Frames false = Frames-weaken (done-Frames tt) (λ a p. tt)

  -- One call of the controller after the switch, with the way back.
  called :
      (f : Err → Err) {v : View}
      → Active o.update.version v.1
      → OnDisk
          (outside otherwise λ e. roll_back m component o (f e))
          v
          (Active o.update.version)
          IsLive
  called f k = handled _ (still outside-Frames k) (λ e u q. roll_back-OnDisk (f e) q.live)

  pruned :
      {v : View}
      → Active o.update.version v.1
      → (n : ℕ) → OnDisk (ignoring (on_store (prune n))) v (Active o.update.version) IsLive
  pruned k n =
      weaker (ignored (stored (prune-Active n o.update.version k))) (λ d q. q) (λ d q. q.live)

  stopped :
      {v : View}
      → Staged o.update.version v.1
      → OnDisk
          (stop_if o.controller.requires_restart otherwise discard_and_report m component o)
          v
          (Staged o.update.version)
          IsLive
  stopped st = handled _ (still (stop-Frames _) st) (λ e u k. discarded e (k.live, k.spare))

  switched :
      {v : View}
      → Staged o.update.version v.1
      → OnDisk
          (on_store promote otherwise report_failure m component o)
          v
          (Active o.update.version)
          IsLive
  switched st =
      handled _ (stored (promote-Staged o.update.version st))
        (λ e u k. stuck (report-Frames m component o e) k.0)

  managed-OnDisk :
      {v : View}
      → Staged o.update.version v.1
      → OnDisk (install_managed m component o) v (Active o.update.version) IsLive
  unfolding install_managed
  managed-OnDisk st = next _ (stopped st) λ a u st2. next _ (switched st2) λ a1 u1 k1.
      next _ (called start_failed k1) λ a2 u2 k2. next _ (called health_check_failed k2) λ a3 u3 k3.
        next _ (pruned k3 _) λ a4 u4 k4. next _ (calm_setting _ k4) λ a5 u5 k5.
          next _ (calm (insert-Frames _) k5) λ id u6 k6.
            next (λ z. done (record { pending_restart = false })) (calm audit-Frames k6)
              λ a7 u7 k7. calm (done-Frames _) k7

  carry-OnDisk :
      {v : View}
      → IsReliable v.1
      → IsLive v.1
      → OnDisk
          (carry_out m component o)
          v
          (λ d. Authentic m component o × Active o.update.version d)
          IsLive
  unfolding carry_out
  carry-OnDisk r l = record {
    ends =
        then_frames _ (insert-Frames _) (λ e. l)
          λ id p.
            then_frames _
              (Frames-otherwise (download-Frames m component o)
                (λ e. report-Frames m component o e))
              (λ e. l)
              λ a authentic.
                (weaker (next _ (stage-OnDisk r l) (λ b u st. which o.controller.is_self_binary st))
                  (λ d q. (authentic, q)) (λ d q. q)).ends;
  }
    where
      which :
          (b : Bool) {u : View}
          → Staged o.update.version u.1
          → OnDisk
              (if b then install_self m component o else install_managed m component o)
              u
              (Active o.update.version)
              IsLive
      which true st = self-OnDisk st
      which false st = managed-OnDisk st

module _ (m : Manager) (component : String) (opts : InstallOptions) where
  -- An offer that passed every gate and whose artifact verified is what is active.
  abbrev pub Installed : View → Disk → Type 0
  Installed v d =
      (o : Offer) × Accepted m component opts v o
      × Authentic m component o
      × Active o.update.version d

  install-OnDisk :
      (v : View)
      → IsReliable v.1
      → IsLive v.1
      → OnDisk (install m component opts) v (Installed v) IsLive
  unfolding install
  install-OnDisk v r l = record {
    ends =
        then_frames _ (gates-Frames m component opts v) (λ e. l)
          λ o acc.
            (weaker (carry-OnDisk m component o r l) (λ d q. (o, acc, q.0, q.1)) (λ d q. q)).ends;
  }

  -- Where the removal of a pointer cannot fail: Install keeps the active version and the rollback
  -- target on disk, whichever call fails (of the source, the store, the controller, the settings, the
  -- history), the way back after a failed start or health check included.
  pub install-IsLive :
      (w : World)
      → IsReliable w.store.disk
      → IsLive w.store.disk
      → IsLive (install m component opts w).1.store.disk
  install-IsLive w r l =
      both_of_Wp _ {P = λ (u : View). IsLive u.1} w
        (weaker (install-OnDisk (view w) r l) (λ d q. q.3.live) (λ d q. q)).ends

  -- Where the removal of a pointer cannot fail: an Install that succeeds leaves active, with its
  -- release on disk, the version of an offer that passed every gate and whose artifact verified.
  pub install_ok :
      (w : World) {r : InstallResult}
      → IsReliable w.store.disk
      → IsLive w.store.disk
      → (install m component opts w).0 ≡ ok r
      → Installed (view w) (install m component opts w).1.store.disk
  install_ok w r l h = ok_of_Wp _ w (install-OnDisk (view w) r l).ends h
