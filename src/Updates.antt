-- ===== src/Updates.antt =====
-- agent/updates: the manager's rollback (rollback.go) and its matrix gate (compatibility.go).
pub mod Live
pub mod Install
pub mod Check
pub mod SelfUpdate
mod Tests
use qrx_node_suite.Prelude.{
  ℕ, ◌+◌, String, Bool, true, false, Option, none, some, List, [], ◌∷◌, is_some, if◌then◌else◌,
  ◌==◌,
}
use qrx_node_suite.Errors.{
  Err, Result, ok, err, io_failure, unknown_component, no_rollback_target, start_failed,
  health_check_failed, adapter_blocked,
}
use qrx_node_suite.Exec.{Exec, done, fail, reads, modify, ◌>>=◌, ◌>>◌, guard, ◌otherwise◌, ignoring}
use qrx_node_suite.Version.Matrix.{
  Matrix, CompatibilityState, supported, partial, experimental, unsupported, unknown, lookup,
}
use qrx_node_suite.Store.{Store, read_current, read_previous, rollback_to_previous}
use qrx_node_suite.World.{
  World, HistoryRecord, UpdateStatus, status_succeeded, status_rolled_back, outside, on_store,
  shown, insert, audit,
}

abbrev usable : CompatibilityState → Bool
usable supported = true
usable partial = true
usable experimental = true
usable _ = false

pub check_adapter_compatibility : Matrix → String → String → String → Option Err
unfolding lookup
check_adapter_compatibility m core name target =
    if core == ""
    then none
    else if usable (lookup m core name target).1
    then none
    else some adapter_blocked

-- A controller: whether the component must be stopped and started, whether it is this process, and
-- the adapter's name where it is an adapter.
pub record Controller : Type 0 where
  pub requires_restart : Bool
  pub is_self_binary : Bool
  pub adapter_name : Option String

abbrev pub reverted : String → Option String → Option String → UpdateStatus → HistoryRecord
reverted component cur new_cur status = record {
  component = component;
  from_version = shown cur;
  to_version = shown new_cur;
  channel = "";
  status = status;
  rollback_used = true;
  checksum = "";
  manifest_version = 0;
}

-- `newCur, _, _ := st.Current()`: an error reads as no version.
pub current_or_none : Exec World (Option String)
unfolding on_store read_current ◌otherwise◌
current_or_none = on_store read_current otherwise λ e. done none

-- History.Insert, then the audit event.
pub record_rollback : HistoryRecord → Exec World (Unit {0})
unfolding insert ◌>>=◌
record_rollback rec = do id ← insert rec; audit

-- A component that is the running process: the new binary runs after a restart.
pub rollback_self : String → Option String → Exec World Bool
unfolding on_store rollback_to_previous current_or_none record_rollback ◌>>=◌
rollback_self component cur = do
  on_store rollback_to_previous
  new_cur ← current_or_none
  record_rollback (reverted component cur new_cur status_rolled_back)
  done true

abbrev pub stop_if : Bool → Exec World (Unit {0})
stop_if true = outside
stop_if false = done tt

-- The target turned out unhealthy: back to the version before.
pub swap_back : Err → Exec World (Unit {0})
unfolding ignoring on_store rollback_to_previous outside ◌>>=◌
swap_back e = do
  ignoring (on_store rollback_to_previous)
  ignoring outside
  fail (health_check_failed e)

pub rollback_managed : Controller → String → Option String → Exec World Bool
unfolding on_store rollback_to_previous current_or_none record_rollback swap_back outside ◌>>=◌
    ◌otherwise◌
rollback_managed ctrl component cur = do
  stop_if ctrl.requires_restart
  on_store rollback_to_previous
  new_cur ← current_or_none
  outside otherwise λ e. fail (start_failed e)
  outside otherwise swap_back
  record_rollback (reverted component cur new_cur status_succeeded)
  done false

-- Rollback; the result says whether a restart is pending.
pub rollback_component : Option Controller → String → Exec World Bool
unfolding on_store read_current read_previous rollback_self rollback_managed guard ◌>>=◌
rollback_component none component = fail (unknown_component component)
rollback_component (some ctrl) component = do
  cur ← on_store read_current
  prev ← on_store read_previous
  guard (is_some prev) no_rollback_target
  if ctrl.is_self_binary then rollback_self component cur else rollback_managed ctrl component cur
