-- ===== src/BootGuard/Restore.antt =====
-- agent/updates: a self-update that never starts ends on the version before it.
use qrx_node_suite.Prelude.{ℕ, ◌≡◌, ap, ◌∙◌, String, true, none, some}
use qrx_node_suite.Errors.{ok}
use qrx_node_suite.Policy.{boot_attempts, pending_self_update, get}
use qrx_node_suite.Store.{Store, rollback_to_previous}
use qrx_node_suite.Store.Live.{IsLive}
use qrx_node_suite.Store.Promote.{rollback_ok, demoted}
use qrx_node_suite.World.{World}
use qrx_node_suite.World.Ends.{view, View}
use qrx_node_suite.Updates.Install.{Manager, InstallOptions, InstallResult, install}
use qrx_node_suite.Updates.Install.Pending.{install-Pending}
use qrx_node_suite.BootGuard.{check_and_record_attempt, effective_max_attempts, as_number}
use qrx_node_suite.BootGuard.CrashLoop.{IsReliable, counter, boots, boots-rolled_back}

-- An Install of the running process succeeded and waits for the restart; before it a version was
-- active, the releases that the pointers name were on disk, and no boot was counted. The process restarts with the settings and the disk that the Install left. If the
-- new version then crashes on every boot, the boot after the limit makes the version from before the
-- Install active again, and the marker and the counter are gone, where the database succeeds after the
-- restart and the store can be rolled back.
pub install-boots_restored :
    (m : Manager) (component : String) (opts : InstallOptions) (max : ℕ) (w u : World)
    {r : InstallResult} (before : String)
    → IsLive w.store.disk
    → w.store.disk.current ≡ some before
    → counter component w ≡ 0
    → (install m component opts w).0 ≡ ok r
    → r.pending_restart ≡ true
    → view u ≡ view (install m component opts w).1
    → IsReliable u
    → (rollback_to_previous u.store).0 ≡ ok tt
    → let t =
        (check_and_record_attempt max component
          (boots max (effective_max_attempts max) component u)).1 in
      (t.store.disk.current ≡ some before)
      × (counter component t ≡ 0)
      × (get (pending_self_update component) t.settings ≡ none)
install-boots_restored m component opts max w u before l c z h p same reliable back =
    let k = install-Pending m component opts w l h p in
    let (o, st, gone, cleared) =
      boots-rolled_back max component u k.marker reliable
        (ap (λ (x : View). as_number (get (boot_attempts component) x.0)) same
          ∙ ap as_number k.same_boots
          ∙ z)
        (ap (λ (x : View). get (pending_self_update component) x.0) same ∙ k.is_marked) back in
    (
      ap (λ (x : Store). x.disk.current) st
          ∙ (rollback_ok u.store back).1
          ∙ ap (λ (x : View). x.1.previous) same
          ∙ k.way_back
          ∙ ap (λ x. demoted x w.store.disk.previous) c,
      gone,
      cleared,
    )
