-- ===== src/Updates/Check/Tests.antt =====
-- A check of a first install, and the theorem on its report applied to it.
use qrx_node_suite.Prelude.{◌≡◌, refl, inl, inr, true, false, none, []}
use qrx_node_suite.Errors.{ok}
use qrx_node_suite.Exec.{◌>>=◌}
use qrx_node_suite.Policy.{channel, pinned, locked, last_released_at}
use qrx_node_suite.Manifest.{component as find_component}
use qrx_node_suite.Manifest.Verify.{
  verify_manifest_signature, check_not_replayed, check_compatibility,
}
use qrx_node_suite.Store.{Store, read_current, read_previous, is_valid_component}
use qrx_node_suite.World.{World, asks, outside, on_store, check}
use qrx_node_suite.World.Ends.{view}
use qrx_node_suite.World.Yields.{IsWorking}
use qrx_node_suite.Updates.Install.{Offer, gates, fetch_verified_manifest, controller_of}
use qrx_node_suite.Updates.Install.Accepted.{Accepted}
use qrx_node_suite.Updates.Install.Tests.{manager, options, before}
use qrx_node_suite.Updates.Check.{CheckResult, check_component, settled, local, answered, judge}
use qrx_node_suite.Updates.Check.Settled.{IsInstallable}
use qrx_node_suite.Updates.Check.Agreement.{check_component-Accepted}

abbrev empty : Store
empty = record {
  component = "agent";
  disk = record {
    current = none;
    previous = none;
    staged = none;
    releases = [];
    unlink_fails = λ n. false;
  };
  ticks = 0;
  fails = λ n. false;
}

abbrev world : World
world = record (before (λ n. false)) { store = empty }

abbrev report : CheckResult
report = record {
  component = "agent";
  channel = "stable";
  current = "";
  latest = "1.1.0";
  update_available = true;
  pinned = false;
  compatible = true;
  blocked = false;
  block_reason = none;
  restart_required = true;
  rollback_available = false;
  check_error = none;
}

checked : (check_component (manager true) "agent" world).0 ≡ ok report
unfolding check_component channel pinned locked last_released_at find_component
    verify_manifest_signature check_not_replayed check_compatibility read_current read_previous asks
    outside on_store check settled local answered judge fetch_verified_manifest controller_of ◌>>=◌
    is_valid_component
checked = refl

report-IsInstallable : IsInstallable report
report-IsInstallable = record {
  reached = refl;
  listed = refl;
  is_available = refl;
  not_blocked = refl;
}

unlocked : locked world.settings ≡ ok false
unfolding locked
unlocked = refl

works : IsWorking world
unfolding is_valid_component
works = record { calls_work = λ n. refl; store_works = λ n. refl; has_component = refl }

follows : channel "agent" world.settings ≡ ok "stable"
unfolding channel
follows = refl

check_component-Accepted_example :
    (o : Offer) × (o.update.version ≡ "1.1.0")
    × (channel "agent" world.settings ≡ ok o.channel)
    × Accepted (manager true) "agent" options (view world) o
    × ((gates (manager true) "agent" options world).0 ≡ ok o)
check_component-Accepted_example =
    check_component-Accepted (manager true) "agent" options world world checked report-IsInstallable
      (inr follows) (false, unlocked, refl) (inl refl) refl refl works
