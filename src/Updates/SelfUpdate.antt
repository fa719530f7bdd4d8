-- ===== src/Updates/SelfUpdate.antt =====
-- agent/updates/selfupdate.go: the health check that a self-update owes after its restart.
pub mod Resume
use qrx_node_suite.Prelude.{String, Bool, true, false, Option, none, some, List, [], ◌∷◌}
use qrx_node_suite.Errors.{Err, Result, ok, err, bad_json}
use qrx_node_suite.Exec.{Exec, done, ◌>>=◌, ◌>>◌, ignoring, attempt}
use qrx_node_suite.Policy.{
  Settings, Setting, PendingSelfUpdate, pending, pending_self_update, boot_attempts, get, delete,
}
use qrx_node_suite.Store.{rollback_to_previous}
use qrx_node_suite.Store.Prune.{prune}
use qrx_node_suite.World.{
  World, HistoryRecord, UpdateStatus, status_succeeded, status_failed, status_rolled_back, outside,
  on_store, asks, sets, insert,
}
use qrx_node_suite.Updates.{Controller}
use qrx_node_suite.Updates.Install.{Manager, controller_of, retained}

-- GetJSON of a marker, with ErrSettingNotFound as `none`.
abbrev pub as_marker : Option Setting → Result (Option PendingSelfUpdate)
as_marker none = ok none
as_marker (some (pending p)) = ok (some p)
as_marker (some _) = err bad_json

pub marker_of : String → Settings → Result (Option PendingSelfUpdate)
marker_of component s = as_marker (get (pending_self_update component) s)

abbrev pub append_marker :
    Option PendingSelfUpdate → List PendingSelfUpdate → List PendingSelfUpdate
append_marker none ps = ps
append_marker (some p) ps = p ∷ ps

pub pending_self_updates : List String → Exec World (List PendingSelfUpdate)
unfolding marker_of ◌>>=◌
pending_self_updates [] = done []
pending_self_updates (c ∷ names) =
    let rest = pending_self_updates names in
    (do p ← asks (marker_of c); ps ← rest; done (append_marker p ps))

abbrev pub row : String → PendingSelfUpdate → UpdateStatus → Bool → HistoryRecord
row component p status rollback_used = record {
  component = component;
  from_version = p.from_version;
  to_version = p.to_version;
  channel = p.channel;
  status = status;
  rollback_used = rollback_used;
  checksum = "";
  manifest_version = 0;
}

-- The row of a rollback, by the rollback's error.
abbrev pub verdict : String → PendingSelfUpdate → Option Err → HistoryRecord
verdict component p (some e) = row component p status_failed false
verdict component p none = row component p status_rolled_back true

-- clearBootAttempts drops its error.
pub clear_boot_attempts : String → Exec World (Unit {0})
unfolding ◌>>=◌
clear_boot_attempts component = ignoring (sets (delete (boot_attempts component)))

module _ (m : Manager) where
  -- The new version is unhealthy: back to the one before, with the row that says whether that worked.
  pub revert : String → PendingSelfUpdate → Exec World HistoryRecord
  unfolding ◌>>=◌
  revert component p = do
    failed ← attempt (on_store rollback_to_previous)
    done (verdict component p failed)

  pub commit : String → PendingSelfUpdate → Exec World HistoryRecord
  unfolding ◌>>=◌
  commit component p = do
    ignoring (on_store (prune (retained m.retain_versions)))
    done (row component p status_succeeded false)

  -- HEALTH CHECK, then COMMIT or ROLLBACK.
  pub conclude : String → PendingSelfUpdate → Exec World HistoryRecord
  unfolding ◌>>=◌
  conclude component p = do
    unhealthy ← attempt outside
    elim unhealthy [ some e ↦ revert component p | none ↦ commit component p ]

  pub resume : String → PendingSelfUpdate → Exec World (Option HistoryRecord)
  unfolding ◌>>=◌
  resume component p = do
    clear_boot_attempts component
    ctrl ← controller_of m component
    rec ← conclude component p
    id ← insert rec
    sets (delete (pending_self_update component))
    done (some rec)

  -- A row that was written beside a failed Delete is in the history here, and the error is the result.
  pub resume_self_update : String → Exec World (Option HistoryRecord)
  unfolding ◌>>=◌
  resume_self_update component = do
    p ← asks (marker_of component)
    elim p [ none ↦ done none | some q ↦ resume component q ]
