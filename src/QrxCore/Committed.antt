-- ===== src/QrxCore/Committed.antt =====
-- agent/updates/qrx_core.go, Update: where it leaves the active version and the releases.
use qrx_node_suite.Prelude.{◌≡◌, inr, sym, String, false, Option, none}
use mathlib.Core.Path.{subst}
use qrx_node_suite.Errors.{Err, ok}
use qrx_node_suite.Exec.{◌otherwise◌}
use qrx_node_suite.Exec.Wp.{both_of_Wp, ok_of_Wp}
use qrx_node_suite.Policy.{record_manifest_seen}
use qrx_node_suite.Manifest.Verify.{verify_artifact}
use qrx_node_suite.Store.Reliable.{IsReliable, Staged, stage-Staged, promote-Staged, discard_ends}
use qrx_node_suite.Store.{promote, Disk}
use qrx_node_suite.Store.Live.{IsLive, IsSpare, Active}
use qrx_node_suite.World.{World, HistoryRecord, shown, on_store, sets}
use qrx_node_suite.World.Ends.{
  View, view, Frames, Frames-bind, then_frames, outside-Frames, check-Frames, fail-Frames,
}
use qrx_node_suite.World.OnDisk.{
  stored, still, stuck, ignored, setting, next, handled, OnDisk, weaker,
}
use qrx_node_suite.QrxCore.{
  discard_and_fail, stage_artifact, QrxCoreUpdateManager, UpdateOptions, Offer, download, update,
  carry_out, activate_and_validate,
}
use qrx_node_suite.QrxCore.Live.{Healthy, activate-OnDisk}
use qrx_node_suite.QrxCore.Update.{Passed, gates-Frames}

module _ (m : QrxCoreUpdateManager) where
  abbrev pub Authentic : Offer → Type 0
  Authentic o =
      verify_artifact m.library (m.open_artifact o.update.url) o.update m.public_key ≡ none

  download-Frames : (o : Offer) {v : View} → Frames (download m o) v (λ a. Authentic o)
  unfolding download
  download-Frames o = Frames-bind _ outside-Frames λ a1 p1. Frames-bind _ outside-Frames λ a2 p2.
      Frames-bind _ outside-Frames λ a3 p3. Frames-bind _ outside-Frames λ a4 p4. check-Frames _

  discarded :
      {A : Type 0} {R : Disk → Type 0} (e : Err) {v : View}
      → IsLive v.1 × IsSpare v.1
      → OnDisk (discard_and_fail m {A = A} e) v R IsLive
  unfolding discard_and_fail
  discarded e k =
      next _ (ignored (stored (discard_ends k.0 k.1))) (λ a u q. stuck (fail-Frames e) q)

  module _ (o : Offer) where
    stage-OnDisk :
        {v : View}
        → IsReliable v.1
        → IsLive v.1
        → OnDisk (stage_artifact m o) v (Staged o.update.version) IsLive
    unfolding stage_artifact
    stage-OnDisk r l = next _ (stored (stage-Staged o.update.version r l)) λ a u st.
        handled _ (still (Frames-bind _ outside-Frames (λ b p. outside-Frames)) st)
          (λ e w k. discarded e (k.live, k.spare))

    switched :
        {v : View}
        → Staged o.update.version v.1
        → OnDisk (on_store promote otherwise discard_and_fail m) v (Active o.update.version) IsLive
    switched st = handled _ (stored (promote-Staged o.update.version st)) (λ e u k. discarded e k)

    noted :
        {v : View}
        → Active o.update.version v.1
        → OnDisk
            (sets (record_manifest_seen o.channel o.manifest.released_at))
            v
            (Active o.update.version)
            IsLive
    noted k = weaker (setting _ k) (λ d q. q) (λ d q. q.live)

    validated :
        (cur : Option String) {v : View}
        → Active o.update.version v.1
        → OnDisk
            (activate_and_validate m o.update.version (shown cur) false)
            v
            (λ d. Active o.update.version d × Healthy m)
            IsLive
    validated cur k =
        weaker
          (activate-OnDisk m cur o.update.version false
            (record { live = k.live; between = inr k.on_version }) (inr k.on_version))
          (λ d q. q) (λ d q. q.live)

    carry-OnDisk :
        (cur : Option String) {v : View}
        → o.from ≡ shown cur
        → IsReliable v.1
        → IsLive v.1
        → OnDisk (carry_out m o) v (λ d. Authentic o × Active o.update.version d × Healthy m) IsLive
    unfolding carry_out
    carry-OnDisk cur q r l = record {
      ends =
          then_frames _ (download-Frames o) (λ e. l)
            λ a authentic.
              (weaker
                (next _ (stage-OnDisk r l) λ b u st. next _ (switched st) λ c t k.
                  next _ (noted k) λ d x k2.
                    subst
                      (λ (f : String).
                        OnDisk (activate_and_validate m o.update.version f false) x
                          (λ d. Active o.update.version d × Healthy m) IsLive)
                      (sym q) (validated cur k2))
                (λ d p. (authentic, p.0, p.1)) (λ d p. p)).ends;
    }

  update-OnDisk :
      (opts : UpdateOptions) {v : View}
      → IsReliable v.1
      → IsLive v.1
      → OnDisk
          (update m opts)
          v
          (λ d.
            (o : Offer) × Passed m opts v o × Authentic o × Active o.update.version d × Healthy m)
          IsLive
  unfolding update
  update-OnDisk opts {v} r l = record {
    ends =
        then_frames _ (gates-Frames m opts v) (λ e. l)
          λ o passed.
            (weaker (carry-OnDisk o v.1.current passed.from_current r l)
              (λ d p. (o, passed, p.0, p.1, p.2)) (λ d p. p)).ends;
  }

  -- Where the removal of a pointer cannot fail: Update keeps the active version and the rollback target
  -- on disk, whatever call of the source, the store, the process, the probe, the settings or the history
  -- fails.
  pub update-IsLive :
      (opts : UpdateOptions) (w : World)
      → IsReliable w.store.disk
      → IsLive w.store.disk
      → IsLive (update m opts w).1.store.disk
  update-IsLive opts w r l =
      both_of_Wp _ {P = λ (u : View). IsLive u.1} w
        (weaker (update-OnDisk opts r l) (λ d q. q.3.live) (λ d q. q)).ends

  -- Where the removal of a pointer cannot fail and the releases that the pointers name are on disk: an
  -- Update that succeeds leaves active, with its release on disk, the version of an offer that passed
  -- every gate, whose profile lets it pass, and whose artifact verified; and the probe gave a healthy
  -- answer.
  pub update_ok :
      (opts : UpdateOptions) (w : World) {r : HistoryRecord}
      → IsReliable w.store.disk
      → IsLive w.store.disk
      → (update m opts w).0 ≡ ok r
      → (o : Offer) × Passed m opts (view w) o
        × Authentic o
        × Active o.update.version (update m opts w).1.store.disk
        × Healthy m
  update_ok opts w r l h = ok_of_Wp _ w (update-OnDisk opts r l).ends h
