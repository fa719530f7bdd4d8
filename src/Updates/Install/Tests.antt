-- ===== src/Updates/Install/Tests.antt =====
-- An update of the dashboard and of the agent on concrete disks, and the theorems on Install applied.
use qrx_node_suite.Prelude.{
  ℕ, ◌≡◌, refl, Bool, true, false, none, some, List, [], ◌∷◌, eqb, if◌then◌else◌, codes, length,
  ◌==◌,
}
use qrx_node_suite.Errors.{ok}
use qrx_node_suite.Exec.{◌>>=◌, ◌otherwise◌, guard}
use qrx_node_suite.Policy.{locked, last_released_at, pinned}
use qrx_node_suite.Manifest.{Manifest, ComponentUpdate, component as find_component}
use qrx_node_suite.Manifest.Verify.{
  Library, verify_manifest_signature, verify_artifact, check_not_replayed, check_not_downgrade,
  check_compatibility,
}
use qrx_node_suite.Store.{
  Store, is_valid_component, has, promote, stage, read_current, read_previous, rollback_to_previous,
}
use qrx_node_suite.Store.Live.{IsLive}
use qrx_node_suite.World.{World, outside, on_store, insert, sets, asks, check}
use qrx_node_suite.World.Ends.{view}
use qrx_node_suite.Updates.Install.{
  Manager, InstallOptions, install, gates, carry_out, pass_lock, pass_window, channel_of,
  fetch_verified_manifest, offered, pass_pin, controller_of, download, stage_artifact, install_self,
}
use qrx_node_suite.Updates.Install.Safety.{install-Accepted, UntouchedOr}
use qrx_node_suite.Updates.Install.Live.{install-IsLive, install_ok, Installed}
use qrx_node_suite.Updates.Install.Pending.{Pending, install-Pending}

abbrev pub update : ComponentUpdate
update = record {
  version = "1.1.0";
  url = "u";
  sha256 = "h";
  signature = "sig";
  release_notes = none;
}

abbrev pub release : Manifest
release = record {
  manifest_version = 1;
  channel = "stable";
  suite_version = "1.1.0";
  released_at = "t";
  components = ("agent", update) ∷ [];
  manifest_signature = "sig";
}

abbrev pub library : Library
library = record {
  base64_decode = λ s. if s == "sig" then some (7 ∷ []) else none;
  hex_encode = λ s. "h";
  sha256 = λ s. s;
  ed25519_verify = λ key message sig. eqb (length sig) 1;
  parse_time = λ s. if s == "" then none else some (length (codes s));
}

abbrev pub key : List ℕ
key =
    1 ∷ 2 ∷ 3 ∷ 4 ∷ 5 ∷ 6 ∷ 7 ∷ 8 ∷ 9 ∷ 10 ∷ 11 ∷ 12 ∷ 13 ∷ 14 ∷ 15 ∷ 16 ∷ 17 ∷ 18 ∷ 19 ∷ 20 ∷ 21
    ∷ 22 ∷ 23 ∷ 24 ∷ 25 ∷ 26 ∷ 27 ∷ 28 ∷ 29 ∷ 30 ∷ 31 ∷ 32 ∷ []

-- The agent is the running process, or a component of its own.
abbrev pub manager : Bool → Manager
manager is_self = record {
  library = library;
  public_key = key;
  fetch_manifest = λ ch. release;
  open_artifact = λ url. [];
  controllers = λ c.
      if c == "agent"
      then some (record { requires_restart = true; is_self_binary = is_self; adapter_name = none })
      else none;
  matrix = none;
  current_versions = record {
    suite_version = "1.0.0";
    qrx_core_version = "";
    adapter_version = "";
  };
  weekday = 1;
  hour = 2;
  minute = 3;
  retain_versions = 2;
}

abbrev pub options : InstallOptions
options = record { channel = "stable"; allow_downgrade = true; manual = true; force = false }

abbrev pub installed : Store
installed = record {
  component = "agent";
  disk = record {
    current = some "1.0.0";
    previous = none;
    staged = none;
    releases = "1.0.0" ∷ [];
    unlink_fails = λ n. false;
  };
  ticks = 0;
  fails = λ n. false;
}

-- The calls that fail are a parameter.
abbrev pub before : (ℕ → Bool) → World
before fails = record {
  settings = [];
  store = installed;
  history = [];
  audited = 0;
  ticks = 0;
  fails = fails;
}

pub installed-IsLive : IsLive installed.disk
unfolding has
installed-IsLive = record { current_live = refl; previous_live = tt }

install-Accepted_example :
    UntouchedOr
      (manager true)
      "agent"
      options
      (view (before (λ n. false)))
      (view (install (manager true) "agent" options (before (λ n. false))).1)
install-Accepted_example = install-Accepted (manager true) "agent" options (before (λ n. false))

-- The health check fails.
install-IsLive_example :
    IsLive (install (manager false) "agent" options (before (λ n. eqb n 17))).1.store.disk
install-IsLive_example =
    install-IsLive (manager false) "agent" options (before (λ n. eqb n 17)) (λ n. refl)
      installed-IsLive

abbrev pub after_install : World
after_install = (install (manager true) "agent" options (before (λ n. false))).1

pub self_installed :
    (install (manager true) "agent" options (before (λ n. false))).0
    ≡ ok (record { pending_restart = true })
unfolding install gates carry_out pass_lock pass_window channel_of fetch_verified_manifest offered
    pass_pin controller_of download stage_artifact install_self locked last_released_at pinned
    find_component verify_manifest_signature verify_artifact check_not_replayed check_not_downgrade
    check_compatibility stage promote asks outside check on_store insert sets guard ◌>>=◌
    ◌otherwise◌ read_current read_previous is_valid_component
self_installed = refl

pub self_rolls_back : (rollback_to_previous after_install.store).0 ≡ ok tt
unfolding install gates carry_out pass_lock pass_window channel_of fetch_verified_manifest offered
    pass_pin controller_of download stage_artifact install_self locked last_released_at pinned
    find_component verify_manifest_signature verify_artifact check_not_replayed check_not_downgrade
    check_compatibility stage promote asks outside check on_store insert sets guard ◌>>=◌
    ◌otherwise◌ read_current read_previous is_valid_component rollback_to_previous
self_rolls_back = refl

install_ok_example :
    Installed (manager true) "agent" options (view (before (λ n. false))) after_install.store.disk
install_ok_example =
    install_ok (manager true) "agent" options (before (λ n. false)) (λ n. refl) installed-IsLive
      self_installed

install-Pending_example : Pending "agent" (view (before (λ n. false))) (view after_install)
install-Pending_example =
    install-Pending (manager true) "agent" options (before (λ n. false)) installed-IsLive
      self_installed refl
