-- ===== src/Adapters.antt =====
-- agent/adapters/registry.go: which adapter is active.
--
-- The adapters are called through the Adapter interface: `calls` is the sequence of those calls,
-- newest first, and `fails` says which of them return an error. `installed` holds the names of the
-- registered factories; "" stands for no adapter, as in the source. The lists stand for Go maps: nothing depends on their order.
pub mod Frames
pub mod Activation
mod Tests
use qrx_node_suite.Prelude.{
  ℕ, ◌+◌, String, Bool, true, false, not, ◌&&◌, ◌||◌, Option, none, some, List, [], ◌∷◌,
  if◌then◌else◌, ◌==◌, length, codes,
}
use qrx_node_suite.Errors.{
  Err, Result, ok, err, io_failure, adapter_not_installed, no_compatible_adapter, adapter_disabled,
  adapter_health_failed, no_rollback_target,
}
use qrx_node_suite.Exec.{Exec, done, fail, reads, modify, ◌>>=◌, ◌>>◌, guard, ◌otherwise◌, ignoring}
use qrx_node_suite.Store.{has, without}
use qrx_node_suite.Version.Matrix.{
  Matrix, MatrixEntry, CompatibilityState, supported, partial, experimental, unsupported, unknown,
  lookup, best_adapter_for,
}

pub data Call : Type 0 where
  call_activate call_deactivate call_health : String → Call

pub record Registry : Type 0 where
  pub matrix : Matrix
  pub installed : List String
  -- Adapter.Version of the adapter with a name.
  pub version_of : String → String
  pub disabled : List String
  pub active : String
  pub previous : String
  pub calls : List Call
  pub fails : ℕ → Bool

-- One call of an adapter.
unfoldable pub call : Call → Exec Registry (Unit {0})
call c r =
    (if r.fails (length r.calls) then err io_failure else ok tt, record r { calls = c ∷ r.calls })

-- getOrCreate: an instance that was not made yet is made; that touches nothing else.
pub get_or_create : String → Exec Registry (Unit {0})
unfolding guard
get_or_create name r = guard (has name r.installed) (adapter_not_installed name) r

pub validate_compatibility : String → String → Registry → Result CompatibilityState
unfolding lookup
validate_compatibility name core r =
    if has name r.installed
    then ok (lookup r.matrix core name (r.version_of name)).1
    else err (adapter_not_installed name)

-- The default of the switch keeps the adapter enabled.
abbrev pub disables : CompatibilityState → Bool
disables unsupported = true
disables unknown = true
disables _ = false

pub disable_loop : String → List String → Registry → List String → List String
unfolding lookup
disable_loop core [] r disabled = disabled
disable_loop core (name ∷ names) r disabled =
    let state = (lookup r.matrix core name (r.version_of name)).1 in
    let others = without name disabled in
    disable_loop core names r (if disables state then name ∷ others else others)

-- DisableIncompatible goes over every installed adapter, so getOrCreate finds each.
pub disable_incompatible : String → Registry → Registry
unfolding disable_loop
disable_incompatible core r = record r { disabled = disable_loop core r.installed r r.disabled }

-- `current`: the active adapter, where it is another one than the requested.
pub current_of : String → Registry → Option String
current_of name r =
    if r.active == "" || r.active == name || not (has r.active r.installed)
    then none
    else some r.active

-- The reads of the registry's fields under its read lock.
pub is_disabled : String → Exec Registry Bool
is_disabled name = reads (λ r. has name r.disabled)

pub find_current : String → Exec Registry (Option String)
unfolding current_of
find_current name = reads (current_of name)

abbrev pub deactivate_current : Option String → Exec Registry (Unit {0})
deactivate_current none = done tt
deactivate_current (some name) = call (call_deactivate name)

abbrev pub restore : Option String → Exec Registry (Unit {0})
restore none = done tt
restore (some name) = ignoring (call (call_activate name))

abbrev pub switch : String → Registry → Registry
switch name r = record r { previous = r.active; active = name }

-- Activate after its checks: the calls of the two adapters, and the new pointers.
pub hand_over : String → Exec Registry (Unit {0})
unfolding call ◌>>=◌ ignoring ◌otherwise◌ find_current
hand_over name = do
  current ← find_current name
  deactivate_current current
  call (call_activate name) otherwise λ e. do restore current; fail e
  call (call_health name) otherwise λ e. do
    ignoring (call (call_deactivate name))
    restore current
    fail adapter_health_failed
  modify (switch name)

pub activate : String → Bool → Exec Registry (Unit {0})
unfolding get_or_create ◌>>=◌ guard is_disabled hand_over
activate name allow_unsupported = do
  get_or_create name
  disabled ← is_disabled name
  guard (not disabled || allow_unsupported) adapter_disabled
  hand_over name

pub rollback : Exec Registry (Unit {0})
unfolding activate ◌>>=◌ guard
rollback = do
  target ← reads (λ r. r.previous)
  cur ← reads (λ r. r.active)
  guard (not (target == "")) no_rollback_target
  activate target true
  modify (λ r. record r { previous = cur })

-- SelectAutomatic, up to the discovery snapshot that it returns.
pub select_automatic : String → Exec Registry (Unit {0})
unfolding disable_incompatible best_adapter_for activate ◌>>=◌ guard
select_automatic core = do
  modify (disable_incompatible core)
  (best, found) ← reads (λ r. best_adapter_for r.matrix core)
  guard found no_compatible_adapter
  is_installed ← reads (λ r. has best.adapter_name r.installed)
  guard is_installed (adapter_not_installed best.adapter_name)
  activate best.adapter_name false

unfoldable pub active_name : Registry → String
active_name r = r.active
