-- ===== src/Updates/Install/Work.antt =====
-- agent/updates/manager.go, Install from the first row in the history on: every change is about the
-- version of the offer.
use qrx_node_suite.Prelude.{◌≡◌, refl, sym, String, Bool, true, false, if◌then◌else◌, ℕ}
use qrx_node_suite.Errors.{Err, start_failed, health_check_failed}
use qrx_node_suite.Exec.{◌otherwise◌, ◌>>◌, done, Exec}
use qrx_node_suite.Exec.Wp.{Wp, Wp_of_both, Wp-weaken}
use qrx_node_suite.Policy.{Settings, set, pending, pending_self_update, record_manifest_seen}
use qrx_node_suite.Store.{Store, Disk, stage, promote, rollback_to_previous}
use qrx_node_suite.Store.Tied.{
  Tied, Ready, stage-Ready, promote-Ready, rollback-Ready, discard-Ready, prune-Ready,
}
use mathlib.Core.Path.{subst}
use qrx_node_suite.World.{World, outside, on_store, sets, shown}
use qrx_node_suite.World.Ends.{
  View, Frames, Frames-bind, outside-Frames, insert-Frames, done-Frames, fail-Frames, audit-Frames,
  Frames-weaken, ignoring-Frames, Any, on_store_ends, Ends, Ends-eq,
}
use qrx_node_suite.World.Turns.{
  Turns, Turns-frames, Turns-fails, Turns-bind, Turns-otherwise, Turns-weaken, Turns-ignoring,
  Turns-sets,
}
use qrx_node_suite.Updates.{stop_if}
use qrx_node_suite.Updates.Install.{
  Manager, Offer, report_failure, discard_and_report, stage_artifact, roll_back,
  rollback_and_restart, install_self, install_managed,
}

pub report-Frames :
    {A : Type 0} {P : A → Type 0} (m : Manager) (component : String) (o : Offer) (e : Err)
    {v : View}
    → Frames (report_failure m {A = A} component o e) v P
unfolding report_failure
report-Frames m component o e =
    Frames-bind _ (ignoring-Frames (insert-Frames _)) (λ a p. fail-Frames e)

-- The settings after work on the offer: the two that Install writes, and nothing else.
pub data Noted (component : String) (o : Offer) (before : Settings) : Settings → Type 0 where
  as_before : Noted component o before before
  noted_pending :
      (id : ℕ) {s : Settings}
      → Noted component o before s
      → Noted component o before (
          set
            (pending_self_update component)
            (pending (record {
              component = component;
              from_version = shown o.current;
              to_version = o.update.version;
              channel = o.channel;
              history_id = id;
            }))
            s)
  noted_seen :
      {s : Settings}
      → Noted component o before s
      → Noted component o before (record_manifest_seen o.channel o.manifest.released_at s)

-- What changed is about the version of the offer: the pointers, the releases, the settings.
pub record Worked (component : String) (o : Offer) (v u : View) : Type 0 where
  pub disk_tied : Tied o.update.version v.1 u.1
  pub noted : Noted component o v.0 u.0

module _ (m : Manager) (component : String) (o : Offer) (b : View) where
  abbrev At : View → Type 0
  At u = Worked component o b u

  record Spare (u : View) : Type 0 where
    disk_ready : Ready o.update.version b.1 u.1
    noted : Noted component o b.0 u.0

  Spare-At : (u : View) → Spare u → At u
  Spare-At u k = record { disk_tied = k.disk_ready.tied; noted = k.noted }

  -- A step of the store that keeps the disk ready.
  on_store-Spare :
      {A : Type 0} (x : Exec Store A)
      → ((s : Store) → Ready o.update.version b.1 s.disk → Ready o.update.version b.1 (x s).1.disk)
      → Turns Spare Spare Spare (on_store x)
  on_store-Spare x f = record {
    ends = λ v p.
        Wp-weaken _ (on_store_ends (kept v.1 p.disk_ready)) (λ a u q. tied v p u q)
          (λ e u q. tied v p u q);
  }
    where
      kept :
          (d : Disk)
          → Ready o.update.version b.1 d
          → Wp
              (λ (s : Store). s.disk)
              x
              d
              (λ a e. Ready o.update.version b.1 e)
              (λ a e. Ready o.update.version b.1 e)
      kept d k =
          Wp_of_both _ {P = Ready o.update.version b.1}
            (λ s q. f s (subst (Ready o.update.version b.1) (sym q) k))

      tied :
          (v : View) → Spare v → (u : View) → (u.0 ≡ v.0) × Ready o.update.version b.1 u.1 → Spare u
      tied v p u q = record {
        disk_ready = q.1;
        noted = subst (Noted component o b.0) (sym q.0) p.noted;
      }

  reported :
      {A : Type 0} {P Q : View → Type 0} (e : Err)
      → Turns P Q P (report_failure m {A = A} component o e)
  reported e = Turns-fails (λ v. report-Frames m component o e)

  discarded :
      {A : Type 0} {Q : View → Type 0} (e : Err)
      → Turns Spare Q Spare (discard_and_report m {A = A} component o e)
  unfolding discard_and_report
  discarded e =
      Turns-bind (Turns-ignoring (on_store-Spare _ (discard-Ready o.update.version b.1 true)))
        (λ a. reported e)

  stage-Turns : Turns (λ u. u ≡ b) Spare At (stage_artifact m component o)
  unfolding stage_artifact
  stage-Turns = Turns-bind (Turns-otherwise staged (λ e. reported e)) λ a.
      Turns-weaken
        (Turns-otherwise (Turns-frames (λ v. Frames-bind _ outside-Frames (λ b p. outside-Frames)))
          (λ e. discarded e))
        (λ u k. k) Spare-At
    where
      staged : Turns (λ u. u ≡ b) Spare At (on_store (stage o.update.version))
      staged = record {
        ends = λ v p. Ends-eq p (
            Wp-weaken _ (on_store_ends (stage-Ready o.update.version b.1))
              (λ a u q. record {
                disk_ready = q.1;
                noted = subst (Noted component o b.0) (sym q.0) as_before;
              })
              (λ e u q. record {
                disk_tied = q.1;
                noted = subst (Noted component o b.0) (sym q.0) as_before;
              }));
      }

  calm :
      {A : Type 0} {x : Exec World A} {P : A → Type 0}
      → ((v : View) → Frames x v P)
      → Turns Spare Spare Spare x
  calm h = Turns-frames h

  seen : Turns Spare Spare Spare (sets (record_manifest_seen o.channel o.manifest.released_at))
  seen = Turns-sets _ λ v k. record { disk_ready = k.disk_ready; noted = noted_seen k.noted }

  self-Turns : Turns Spare Spare Spare (install_self m component o)
  unfolding install_self
  self-Turns =
      Turns-bind
        (Turns-otherwise (on_store-Spare promote (promote-Ready o.update.version b.1))
          (λ e. discarded e))
        λ a. Turns-bind (calm (λ v. insert-Frames _)) λ id.
          Turns-bind
            (Turns-sets _
              λ v k. record { disk_ready = k.disk_ready; noted = noted_pending id k.noted })
            λ a2. Turns-bind seen λ a3. calm (λ v. done-Frames _)

  roll_back-Turns :
      {A : Type 0} (e : Err) → Turns Spare Spare Spare (roll_back m {A = A} component o e)
  unfolding roll_back rollback_and_restart
  roll_back-Turns e =
      Turns-bind
        (Turns-ignoring (
          Turns-bind (on_store-Spare rollback_to_previous (rollback-Ready o.update.version b.1))
            (λ a. calm (λ v. outside-Frames))))
        λ a.
          Turns-fails λ v. Frames-bind _ (ignoring-Frames (insert-Frames _)) (λ b p. fail-Frames e)

  stop-Frames : (r : Bool) {v : View} → Frames (stop_if r) v Any
  stop-Frames true = outside-Frames
  stop-Frames false = Frames-weaken (done-Frames tt) (λ a p. tt)

  -- One call of the controller after the switch, with the way back.
  called :
      (f : Err → Err)
      → Turns Spare Spare Spare (outside otherwise λ e. roll_back m component o (f e))
  called f = Turns-otherwise (calm (λ v. outside-Frames)) (λ e. roll_back-Turns (f e))

  managed-Turns : Turns Spare Spare Spare (install_managed m component o)
  unfolding install_managed
  managed-Turns = Turns-bind (Turns-otherwise (calm (λ v. stop-Frames _)) (λ e. discarded e)) λ a1.
      Turns-bind
        (Turns-otherwise (on_store-Spare promote (promote-Ready o.update.version b.1))
          (λ e. reported e))
        λ a2. Turns-bind (called start_failed) λ a3. Turns-bind (called health_check_failed) λ a4.
          Turns-bind (Turns-ignoring (on_store-Spare _ (prune-Ready o.update.version b.1 _))) λ a5.
            Turns-bind seen λ a6. Turns-bind (calm (λ v. insert-Frames _)) λ id.
              Turns-bind {f = λ z. done (record { pending_restart = false })}
                (calm (λ v. audit-Frames)) λ a8. calm (λ v. done-Frames _)

  switch-Turns :
      (r : Bool)
      → Turns Spare Spare Spare
          (if r then install_self m component o else install_managed m component o)
  switch-Turns true = self-Turns
  switch-Turns false = managed-Turns

  -- Whatever fails after the artifact is verified, what changed is about the version of the offer.
  pub work-Worked :
      Ends
        (do
          stage_artifact m component o
          (if o.controller.is_self_binary
              then install_self m component o
              else install_managed m component o))
        b
        (λ a u. Worked component o b u)
        (λ e u. Worked component o b u)
  work-Worked =
      (Turns-bind stage-Turns
          λ a. Turns-weaken (switch-Turns o.controller.is_self_binary) Spare-At Spare-At).ends
        b refl
