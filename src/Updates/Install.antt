-- ===== src/Updates/Install.antt =====
-- agent/updates/manager.go, Install: the gates, the download, and the switch to the new version.
pub mod Accepted
pub mod Work
pub mod Passing
pub mod Safety
pub mod Live
pub mod Pending
pub mod Tests
use qrx_node_suite.Prelude.{
  ℕ, eqb, String, Bool, true, false, not, ◌&&◌, ◌||◌, Option, none, some, List, if◌then◌else◌, ◌==◌,
}
use qrx_node_suite.Errors.{
  Err, updates_locked, outside_window, pinned_elsewhere, no_update_for_component, unknown_component,
  already_installed, already_rollback_target, start_failed, health_check_failed,
}
use qrx_node_suite.Exec.{Exec, done, fail, ◌>>=◌, ◌>>◌, guard, ◌otherwise◌, ignoring}
use qrx_node_suite.Policy.{
  ScheduledWindow, PendingSelfUpdate, locked, scheduled_window, in_window, channel, pinned,
  last_released_at, record_manifest_seen, set, pending, pending_self_update,
}
use qrx_node_suite.Version.Matrix.{Matrix}
use qrx_node_suite.Manifest.{Manifest, ComponentUpdate, component as find_component}
use qrx_node_suite.Manifest.Verify.{
  Library, verify_manifest_signature, verify_artifact, check_not_replayed, check_not_downgrade,
  check_compatibility,
}
use qrx_node_suite.Store.{
  Store, names, read_current, read_previous, stage, discard_staged, promote, rollback_to_previous,
}
use qrx_node_suite.Store.Prune.{prune}
use qrx_node_suite.World.{
  World, HistoryRecord, UpdateStatus, status_started, status_succeeded, status_failed,
  status_rolled_back, outside, on_store, asks, sets, insert, audit, check, shown,
}
use qrx_node_suite.Updates.{Controller, check_adapter_compatibility, stop_if}

pub record CurrentVersions : Type 0 where
  pub suite_version : String
  pub qrx_core_version : String
  pub adapter_version : String

-- What surrounds a manager: its key, its source (the manifest of each channel and the bytes of the
-- artifact, where a fetch succeeds), its controllers and matrix, and the time.
pub record Manager : Type 0 where
  pub library : Library
  pub public_key : List ℕ
  pub fetch_manifest : String → Manifest
  pub open_artifact : String → List ℕ
  pub controllers : String → Option Controller
  pub matrix : Option Matrix
  pub current_versions : CurrentVersions
  pub weekday : ℕ
  pub hour : ℕ
  pub minute : ℕ
  -- A negative count is 0.
  pub retain_versions : ℕ

pub record InstallOptions : Type 0 where
  pub channel : String
  pub allow_downgrade : Bool
  pub manual : Bool
  pub force : Bool

-- What the gates hand on.
pub record Offer : Type 0 where
  pub channel : String
  pub manifest : Manifest
  pub update : ComponentUpdate
  pub current : Option String
  pub controller : Controller

pub record InstallResult : Type 0 where
  pub pending_restart : Bool

pub retained : ℕ → ℕ
retained n = if eqb n 0 then 2 else n

module _ (m : Manager) where
  unfoldable pub fetch_verified_manifest : String → Exec World Manifest
  unfolding ◌>>=◌
  fetch_verified_manifest ch = do
    outside
    let mf = m.fetch_manifest ch
    check (verify_manifest_signature m.library mf m.public_key)
    last_seen ← asks (last_released_at ch)
    check (check_not_replayed m.library mf last_seen)
    done mf

  -- The update lock, which only Force passes.
  pub pass_lock : InstallOptions → Exec World (Unit {0})
  unfolding ◌>>=◌
  pass_lock opts = do is_locked ← asks locked; guard (not is_locked || opts.force) updates_locked

  abbrev pub window_open : Option ScheduledWindow → Bool
  window_open none = true
  window_open (some w) = in_window w m.weekday m.hour m.minute

  -- The scheduled window, which binds automatic installs only.
  pub pass_window : InstallOptions → Exec World (Unit {0})
  unfolding ◌>>=◌
  pass_window opts =
      if opts.manual
      then done tt
      else (do w ← asks scheduled_window; guard (window_open w) outside_window)

  pub channel_of : InstallOptions → String → Exec World String
  channel_of opts component =
      if opts.channel == "" then asks (channel component) else done opts.channel

  pub offered : String → Manifest → Exec World ComponentUpdate
  offered component mf = elim (find_component component mf.components) [
    | none ↦ fail (no_update_for_component component)
    | some c ↦ done c
  ]

  abbrev pub pin_allows : Option String → String → Bool
  pin_allows none version = true
  pin_allows (some p) version = version == p

  pub pass_pin : String → ComponentUpdate → Exec World (Unit {0})
  unfolding ◌>>=◌
  pass_pin component c = do
    pin ← asks (pinned component)
    guard (pin_allows pin c.version) (pinned_elsewhere component)

  unfoldable pub controller_of : String → Exec World Controller
  controller_of component = elim (m.controllers component) [
    | none ↦ fail (unknown_component component)
    | some ctrl ↦ done ctrl
  ]

  -- The gate of the compatibility matrix, for an adapter where a matrix is set.
  abbrev pub matrix_check : Option Matrix → Option String → String → Option Err
  matrix_check none adapter version = none
  matrix_check (some mx) none version = none
  matrix_check (some mx) (some adapter) version =
      check_adapter_compatibility mx m.current_versions.qrx_core_version adapter version

  abbrev pub is_current : Option String → String → Bool
  is_current cur version = not (shown cur == "") && (shown cur == version)

  -- Install up to its first row in the history: nothing is written here.
  pub gates : String → InstallOptions → Exec World Offer
  unfolding ◌>>=◌
  gates component opts = do
    pass_lock opts
    pass_window opts
    ch ← channel_of opts component
    mf ← fetch_verified_manifest ch
    c ← offered component mf
    pass_pin component c
    cur ← on_store read_current
    guard (not (is_current cur c.version)) (already_installed c.version)
    check (check_not_downgrade (shown cur) c.version opts.allow_downgrade)
    prev ← on_store read_previous
    guard (not (names prev c.version)) (already_rollback_target c.version)
    check (
        check_compatibility c m.current_versions.suite_version m.current_versions.qrx_core_version
          m.current_versions.adapter_version)
    ctrl ← controller_of component
    check (matrix_check m.matrix ctrl.adapter_name c.version)
    done (record { channel = ch; manifest = mf; update = c; current = cur; controller = ctrl })

  abbrev pub row : String → Offer → UpdateStatus → Bool → HistoryRecord
  row component o status rollback_used = record {
    component = component;
    from_version = shown o.current;
    to_version = o.update.version;
    channel = o.channel;
    status = status;
    rollback_used = rollback_used;
    checksum = o.update.sha256;
    manifest_version = o.manifest.manifest_version;
  }

  -- A failure is written to the history, whose own error is dropped, and returned.
  pub report_failure : {A : Type 0} → String → Offer → Err → Exec World A
  unfolding ◌>>=◌
  report_failure component o e = do ignoring (insert (row component o status_failed false)); fail e

  pub discard_and_report : {A : Type 0} → String → Offer → Err → Exec World A
  unfolding ◌>>=◌
  discard_and_report component o e = do
    ignoring (on_store (discard_staged true))
    report_failure component o e

  -- OpenArtifact, the temporary file, and the copy into it; then VERIFY, which reads the file.
  pub download : String → Offer → Exec World (Unit {0})
  unfolding ◌>>=◌
  download component o = do
    outside
    outside
    outside
    outside
    check (verify_artifact m.library (m.open_artifact o.update.url) o.update m.public_key)

  -- STAGE: the release directory, and the artifact extracted into it.
  pub stage_artifact : String → Offer → Exec World (Unit {0})
  unfolding ◌>>=◌
  stage_artifact component o = do
    on_store (stage o.update.version) otherwise report_failure component o
    (do outside; outside) otherwise discard_and_report component o

  -- A component that is the running process: promoted now, checked after the restart.
  pub install_self : String → Offer → Exec World InstallResult
  unfolding ◌>>=◌
  install_self component o = do
    on_store promote otherwise discard_and_report component o
    id ← insert (row component o status_started false)
    sets (
        set (pending_self_update component) (
          pending (record {
            component = component;
            from_version = shown o.current;
            to_version = o.update.version;
            channel = o.channel;
            history_id = id;
          })))
    sets (record_manifest_seen o.channel o.manifest.released_at)
    done (record { pending_restart = true })

  -- rollbackAndRestart; its error only lengthens the message of the one that led to it.
  pub rollback_and_restart : Exec World (Unit {0})
  unfolding ◌>>=◌
  rollback_and_restart = do on_store rollback_to_previous; outside

  pub roll_back : {A : Type 0} → String → Offer → Err → Exec World A
  unfolding ◌>>=◌
  roll_back component o e = do
    ignoring rollback_and_restart
    ignoring (insert (row component o status_rolled_back true))
    fail e

  -- Every other component: STOP, the switch, START, HEALTH CHECK, COMMIT.
  pub install_managed : String → Offer → Exec World InstallResult
  unfolding ◌>>=◌
  install_managed component o = do
    stop_if o.controller.requires_restart otherwise discard_and_report component o
    on_store promote otherwise report_failure component o
    outside otherwise λ e. roll_back component o (start_failed e)
    outside otherwise λ e. roll_back component o (health_check_failed e)
    ignoring (on_store (prune (retained m.retain_versions)))
    sets (record_manifest_seen o.channel o.manifest.released_at)
    id ← insert (row component o status_succeeded false)
    audit
    done (record { pending_restart = false })

  pub carry_out : String → Offer → Exec World InstallResult
  unfolding ◌>>=◌
  carry_out component o = do
    id ← insert (row component o status_started false)
    download component o otherwise report_failure component o
    stage_artifact component o
    if o.controller.is_self_binary then install_self component o else install_managed component o

  pub install : String → InstallOptions → Exec World InstallResult
  unfolding ◌>>=◌
  install component opts = do o ← gates component opts; carry_out component o
