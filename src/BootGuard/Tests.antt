-- ===== src/BootGuard/Tests.antt =====
-- A self-update of the agent that crashes on every boot, and the theorem applied to it.
use qrx_node_suite.Prelude.{ℕ, ◌≡◌, refl, Bool, true, false, none, some, [], ◌∷◌}
use qrx_node_suite.Policy.{PendingSelfUpdate, pending_self_update, pending, get}
use qrx_node_suite.Store.{is_valid_component, Store, rollback_to_previous}
use qrx_node_suite.World.{World}
use qrx_node_suite.BootGuard.{check_and_record_attempt, effective_max_attempts}
use qrx_node_suite.Updates.Install.Tests.{
  manager, options, before, after_install, installed-IsLive, self_installed, self_rolls_back,
}
use qrx_node_suite.BootGuard.Restore.{install-boots_restored}
use qrx_node_suite.BootGuard.CrashLoop.{counter, boots, boots-rolled_back}

abbrev never : ℕ → Bool
never n = false

abbrev updated : Store
updated = record {
  component = "agent";
  disk = record {
    current = some "1.1.0";
    previous = some "1.0.0";
    staged = none;
    releases = "1.1.0" ∷ "1.0.0" ∷ [];
    unlink_fails = never;
  };
  ticks = 0;
  fails = never;
}

abbrev marker : PendingSelfUpdate
marker = record {
  component = "agent";
  from_version = "1.0.0";
  to_version = "1.1.0";
  channel = "stable";
  history_id = 7;
}

abbrev crashing : World
crashing = record {
  settings = (pending_self_update "agent", pending marker) ∷ [];
  store = updated;
  history = [];
  audited = 0;
  ticks = 0;
  fails = never;
}

boots-rolled_back_example :
    let o = (check_and_record_attempt 0 "agent" (boots 0 3 "agent" crashing)).0 in
    let u = (check_and_record_attempt 0 "agent" (boots 0 3 "agent" crashing)).1 in
    (o ≡ record { rolled_back = true; attempts = 4; error = none })
    × (u.store ≡ (rollback_to_previous updated).1)
    × (counter "agent" u ≡ 0)
    × (get (pending_self_update "agent") u.settings ≡ none)
unfolding effective_max_attempts get rollback_to_previous is_valid_component
boots-rolled_back_example = boots-rolled_back 0 "agent" crashing marker (λ n. refl) refl refl refl

-- The agent restarts on the disk that its update left.
abbrev restarted : World
restarted = record after_install { ticks = 0; fails = never }

install-boots_restored_example :
    let t =
      (check_and_record_attempt 0 "agent"
        (boots 0 (effective_max_attempts 0) "agent" restarted)).1 in
    (t.store.disk.current ≡ some "1.0.0")
    × (counter "agent" t ≡ 0)
    × (get (pending_self_update "agent") t.settings ≡ none)
unfolding get
install-boots_restored_example =
    install-boots_restored (manager true) "agent" options 0 (before never) restarted "1.0.0"
      installed-IsLive refl refl self_installed refl refl (λ n. refl) self_rolls_back
