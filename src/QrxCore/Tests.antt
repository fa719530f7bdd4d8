-- ===== src/QrxCore/Tests.antt =====
-- A switch and an update of QRX Core on a concrete disk, and the theorems applied to them.
use qrx_node_suite.Prelude.{ℕ, ◌≡◌, refl, String, Bool, true, false, none, some, List, [], ◌∷◌, eqb}
use qrx_node_suite.Errors.{ok}
use qrx_node_suite.Exec.{◌>>=◌, ◌otherwise◌, guard, ignoring, attempt}
use qrx_node_suite.Policy.{last_released_at}
use qrx_node_suite.Version.Profile.{CompatibilityProfile, compatible, check_switch_safety}
use qrx_node_suite.Manifest.{component as find_component}
use qrx_node_suite.Manifest.Verify.{
  verify_manifest_signature, verify_artifact, check_not_replayed, check_not_downgrade,
}
use qrx_node_suite.Store.{
  Store, has, is_valid_component, read_current, promote_version, stage, promote,
}
use qrx_node_suite.Store.Prune.{installed_versions, prune}
use qrx_node_suite.Store.Live.{IsLive, Active}
use qrx_node_suite.World.{World, status_succeeded, outside, on_store, asks, sets, insert, check}
use qrx_node_suite.World.Ends.{view}
use qrx_node_suite.Updates.Install.Tests.{update, release, library, key}
use qrx_node_suite.QrxCore.{
  QrxCoreHealth, QrxCoreUpdateManager, SwitchOptions, UpdateOptions, Offer, is_healthy, contains,
  call_if, require_profile, probe_or_unavailable, stop_and_activate, validate, commit,
  start_and_validate, activate_and_validate, switch_version, fetch_verified_manifest, channel_of,
  offered, gates, download, stage_artifact, carry_out, update as update_core, row,
}
use qrx_node_suite.QrxCore.Live.{Between, Healthy}
use qrx_node_suite.QrxCore.Gates.{Safe, switch_version-Between, switch_version_ok}
use qrx_node_suite.QrxCore.Update.{Passed}
use qrx_node_suite.QrxCore.Committed.{Authentic, update-IsLive, update_ok}

abbrev profile : CompatibilityProfile
profile = record {
  profile_version = 1;
  qrx_core_version = "1.1.0";
  feature_flags = [];
  required_adapter = "";
  core_version_switch_safety = record {
    blockchain_data = compatible;
    configuration = compatible;
    wallet = compatible;
    adapter = compatible;
    network = compatible;
  };
}

abbrev healthy : QrxCoreHealth
healthy = record {
  process_running = true;
  network_connected = true;
  block_height_progressing = true;
  peer_count = 8;
  validator_state = "";
  available = true;
  detail = "";
}

abbrev manager : QrxCoreUpdateManager
manager = record {
  library = library;
  public_key = key;
  fetch_manifest = λ ch. record release { components = ("qrx_core", update) ∷ [] };
  open_artifact = λ url. [];
  has_stop = true;
  has_start = true;
  probe = some (λ n. ok healthy);
  is_validator_node = false;
  retain_versions = 2;
}

abbrev options : SwitchOptions
options = record { profile = some profile; expert_override = false }

abbrev update_options : UpdateOptions
update_options = record { channel = "stable"; allow_downgrade = true; switch = options }

abbrev core : List String → Store
core releases = record {
  component = "qrx_core";
  disk = record {
    current = some "1.0.0";
    previous = none;
    staged = none;
    releases = releases;
    unlink_fails = λ n. false;
  };
  ticks = 0;
  fails = λ n. false;
}

abbrev world : List String → (ℕ → Bool) → World
world releases fails = record {
  settings = [];
  store = core releases;
  history = [];
  audited = 0;
  ticks = 0;
  fails = fails;
}

abbrev both : List String
both = "1.0.0" ∷ "1.1.0" ∷ []

abbrev never : ℕ → Bool
never n = false

both-IsLive : IsLive (core both).disk
unfolding has
both-IsLive = record { current_live = refl; previous_live = tt }

one-IsLive : IsLive (core ("1.0.0" ∷ [])).disk
unfolding has
one-IsLive = record { current_live = refl; previous_live = tt }

-- The second call outside the store, the start of the new version, fails.
switch_version-Between_example :
    Between
      (some "1.0.0")
      "1.1.0"
      (switch_version manager "1.1.0" options (world both (λ n. eqb n 1))).1.store.disk
switch_version-Between_example =
    switch_version-Between manager "1.1.0" options (world both (λ n. eqb n 1)) both-IsLive

switched :
    (switch_version manager "1.1.0" options (world both never)).0
    ≡ ok (row manager "1.0.0" "1.1.0" status_succeeded false)
unfolding switch_version require_profile guard check check_switch_safety installed_versions contains
    read_current activate_and_validate stop_and_activate call_if outside on_store promote_version
    start_and_validate validate probe_or_unavailable is_healthy commit insert attempt ignoring ◌>>=◌
    ◌otherwise◌ is_valid_component prune has
switched = refl

switch_version_ok_example :
    Safe options "1.1.0"
    × Active "1.1.0" (switch_version manager "1.1.0" options (world both never)).1.store.disk
    × Healthy manager
switch_version_ok_example =
    switch_version_ok manager "1.1.0" options (world both never) both-IsLive switched

-- The probe is asked after seven calls outside the store; the start before it fails.
update-IsLive_example :
    IsLive (update_core manager update_options (world ("1.0.0" ∷ []) (λ n. eqb n 10))).1.store.disk
update-IsLive_example =
    update-IsLive manager update_options (world ("1.0.0" ∷ []) (λ n. eqb n 10)) (λ n. refl)
      one-IsLive

updated :
    (update_core manager update_options (world ("1.0.0" ∷ []) never)).0
    ≡ ok (row manager "1.0.0" "1.1.0" status_succeeded false)
unfolding update_core gates carry_out require_profile guard check check_switch_safety channel_of
    fetch_verified_manifest offered find_component verify_manifest_signature verify_artifact
    last_released_at check_not_replayed check_not_downgrade read_current download stage_artifact
    stage promote sets asks activate_and_validate stop_and_activate call_if outside on_store
    start_and_validate validate probe_or_unavailable is_healthy commit insert attempt ignoring ◌>>=◌
    ◌otherwise◌ is_valid_component prune has
updated = refl

update_ok_example :
    (o : Offer) × Passed manager update_options (view (world ("1.0.0" ∷ []) never)) o
    × Authentic manager o
    × Active o.update.version
        (update_core manager update_options (world ("1.0.0" ∷ []) never)).1.store.disk
    × Healthy manager
update_ok_example =
    update_ok manager update_options (world ("1.0.0" ∷ []) never) (λ n. refl) one-IsLive updated
