-- ===== src/Updates/Install/Safety.antt =====
-- agent/updates/manager.go, Install: nothing is written for an offer that a gate or the artifact's
-- verification refuses.
use qrx_node_suite.Prelude.{◌≡◌, ◌⊎◌, refl, inl, inr, String, none}
use qrx_node_suite.Exec.{Exec}
use qrx_node_suite.Exec.Wp.{Wp-weaken, both_of_Wp}
use qrx_node_suite.Manifest.Verify.{verify_artifact}
use qrx_node_suite.World.{World}
use qrx_node_suite.World.Ends.{
  View, view, Ends, Frames, Frames-bind, Frames-otherwise, then_frames, outside-Frames,
  insert-Frames, check-Frames,
}
use qrx_node_suite.Updates.Install.{Manager, InstallOptions, Offer, download, carry_out, install}
use qrx_node_suite.Updates.Install.Work.{Worked, report-Frames, work-Worked}
use qrx_node_suite.Updates.Install.Accepted.{Accepted, gates-Frames}

module _ (m : Manager) (component : String) where
  -- The bytes of the offer's artifact are the ones that the manifest's key signed.
  abbrev pub Authentic : Offer → Type 0
  Authentic o =
      verify_artifact m.library (m.open_artifact o.update.url) o.update m.public_key ≡ none

  pub download-Frames :
      (o : Offer) {v : View} → Frames (download m component o) v (λ a. Authentic o)
  unfolding download
  download-Frames o = Frames-bind _ outside-Frames λ a1 p1. Frames-bind _ outside-Frames λ a2 p2.
      Frames-bind _ outside-Frames λ a3 p3. Frames-bind _ outside-Frames λ a4 p4. check-Frames _

  -- Either the settings and the disk are as they were, or an offer passed everything, and what changed
  -- is about its version.
  abbrev pub UntouchedOr : InstallOptions → View → View → Type 0
  UntouchedOr opts v u =
      (u ≡ v) ⊎ ((o : Offer) × Accepted m component opts v o × Authentic o × Worked component o v u)

  abbrev Safe : {A : Type 0} → InstallOptions → View → Exec World A → View → Type 0
  Safe opts v x u = Ends x u (λ a t. UntouchedOr opts v t) (λ e t. UntouchedOr opts v t)

  carry-Safe :
      (opts : InstallOptions) (v : View) (o : Offer)
      → Accepted m component opts v o
      → Safe opts v (carry_out m component o) v
  unfolding carry_out
  carry-Safe opts v o acc =
      then_frames _ (insert-Frames _) (λ e. inl refl)
        λ id p.
          then_frames _ (Frames-otherwise (download-Frames o) (λ e. report-Frames m component o e))
            (λ e. inl refl)
            λ a authentic.
              Wp-weaken _ (work-Worked m component o v) (λ r u k. inr (o, acc, authentic, k))
                (λ e u k. inr (o, acc, authentic, k))

  -- From every state and for every pattern of failures: Install leaves the settings and the disk as
  -- they were, or it worked on an offer that passed the lock, the window, the manifest's signature and
  -- replay check, the pin, the downgrade check, the ranges, the matrix, and whose artifact verified.
  -- What it changed is then about the version of that offer: the active and the rollback pointer name
  -- that version or what one of the two named before, the staged pointer names nothing, that version or
  -- what it named before, every release is that version's or was there before, and the settings are the
  -- ones from before but for the pending restart into that version and the time of that manifest.
  pub install-Accepted :
      (opts : InstallOptions) (w : World)
      → UntouchedOr opts (view w) (view (install m component opts w).1)
  unfolding install
  install-Accepted opts w = both_of_Wp _ w (
      then_frames _ (gates-Frames m component opts (view w)) (λ e. inl refl)
        (λ o acc. carry-Safe opts (view w) o acc))
