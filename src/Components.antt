-- ===== src/Components.antt =====
-- agent/updates/components: the health checks of the components that are this process (agent.go and
-- adapter.go), over the component's store and the adapter registry.
pub mod Extract
pub mod Inside
pub mod Healthy
pub mod Profiles
mod Tests
use qrx_node_suite.Prelude.{
  String, Bool, true, false, not, ◌&&◌, ◌||◌, Option, none, some, if◌then◌else◌, ◌==◌,
}
use qrx_node_suite.Errors.{
  Err, Result, ok, err, restart_missed, no_active_adapter, other_adapter_active,
  combination_refused,
}
use qrx_node_suite.Exec.{Exec, done, fail, reads, ◌>>=◌, ◌>>◌, guard}
use qrx_node_suite.Store.{Store, names, read_current}
use qrx_node_suite.Version.Matrix.{Matrix, lookup}
use qrx_node_suite.Adapters.{Registry, call, call_health, disables, active_name}

-- Agent.HealthCheck, by the version that the process was built as.
unfoldable pub agent_health_check : String → Exec Store (Unit {0})
agent_health_check running = do
  cur ← read_current
  guard (names cur running) (restart_missed running)

pub record Host : Type 0 where
  pub store : Store
  pub registry : Registry

unfoldable pub on_store : {A : Type 0} → Exec Store A → Exec Host A
on_store x h = let (r, s) = x h.store in (r, record h { store = s })

unfoldable pub on_registry : {A : Type 0} → Exec Registry A → Exec Host A
on_registry x h = let (r, g) = x h.registry in (r, record h { registry = g })

-- The controller of an adapter; QRXCoreVersion answers "" where it is not set.
pub record AdapterComponent : Type 0 where
  pub running_version : String
  pub adapter_name : String
  pub matrix : Matrix
  pub qrx_core_version : String

-- The second check: the matrix row of the combination that runs.
unfoldable pub refused : AdapterComponent → Registry → Bool
unfolding lookup
refused c r =
    not (c.qrx_core_version == "")
    && disables (lookup c.matrix c.qrx_core_version c.adapter_name (r.version_of c.adapter_name)).1

-- Adapter.HealthCheck. An adapter that is active has an instance, and its Name is its registry key.
unfoldable pub adapter_health_check : AdapterComponent → Exec Host (Unit {0})
unfolding refused
adapter_health_check c = do
  on_store (agent_health_check c.running_version)
  active ← reads (λ h. active_name h.registry)
  guard (not (active == "")) no_active_adapter
  guard (active == c.adapter_name) (other_adapter_active active)
  on_registry (call (call_health c.adapter_name))
  is_refused ← reads (λ h. refused c h.registry)
  guard (not is_refused) combination_refused
