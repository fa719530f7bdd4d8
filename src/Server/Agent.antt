-- ===== src/Server/Agent.antt =====
-- agent/api over agent/updates/manager.go: the API with the update manager behind it.
--
-- The components share the settings and the history, and each has a store of its own.
use qrx_node_suite.Prelude.{
  ◌≡◌, ap, ◌∙◌, inl, inr, String, some, ◌==◌, Bool-cases, if◌then◌else◌, eq_iff,
}
use qrx_node_suite.Exec.{Exec}
use qrx_node_suite.Node.{Models}
use qrx_node_suite.Store.{Store}
use qrx_node_suite.World.{World}
use qrx_node_suite.World.Ends.{View}
use qrx_node_suite.World.Ends
use qrx_node_suite.Updates.{rollback_component}
use qrx_node_suite.Updates.Install.{Manager, install}
use qrx_node_suite.Updates.Check.{check_component}
use qrx_node_suite.Server.Http.{Deps, UpdateService}

pub record Agent : Type 0 where
  -- What the components share; its store is that of the last component in work.
  pub shared : World
  pub stores : String → Store

-- The settings, and the disk of one component.
abbrev pub view : String → Agent → View
view c a = (a.shared.settings, (a.stores c).disk)

abbrev pub update : String → Store → (String → Store) → String → Store
update c s stores k = if c == k then s else stores k

abbrev pub world_of : String → Agent → World
world_of c a = record (a.shared) { store = a.stores c }

-- storeFor: an operation of the manager on the store of its component.
unfoldable pub focus : {A : Type 0} → String → Exec World A → Exec Agent A
focus c x a =
    let (r, w) = x (world_of c a) in (r, record { shared = w; stores = update c w.store a.stores })

pub focus-view :
    {A : Type 0} (c k : String) (x : Exec World A) (a : Agent)
    → Ends.view (x (world_of c a)).1 ≡ view c a
    → view k (focus c x a).1 ≡ view k a
unfolding focus
focus-view c k x a h = elim (Bool-cases (c == k)) [
  | inl y ↦ rw y (h ∙ ap (λ (z : String). view z a) ((eq_iff c k).0 y))
  | inr n ↦ rw n (ap (λ (v : View). (v.0, (a.stores k).disk)) h)
]

-- The manager behind the API; its other operand is the actor, who stands in the audit log only.
unfoldable pub service : Manager → UpdateService Agent
unfolding focus
service m = record {
  check = λ c. focus c (check_component m c);
  install = λ c opts actor. focus c (install m c opts);
  rollback = λ c actor. focus c (rollback_component (m.controllers c) c);
}

abbrev pub with_manager : {ms : Models} → Deps ms Agent → Manager → Deps ms Agent
with_manager d m = record d { updates = some (service m) }
