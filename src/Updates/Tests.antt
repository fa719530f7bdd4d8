-- ===== src/Updates/Tests.antt =====
-- A rollback of the dashboard whose target is unhealthy, and the theorem applied to it.
use qrx_node_suite.Prelude.{◌≡◌, refl, true, false, some, none, [], ◌∷◌, eqb}
use qrx_node_suite.Errors.{ok}
use qrx_node_suite.Policy.{PendingSelfUpdate, pending, pending_self_update}
use qrx_node_suite.Updates.SelfUpdate.{resume_self_update}
use qrx_node_suite.Updates.SelfUpdate.Resume.{Closed, resume_self_update-Closed}
use qrx_node_suite.Updates.Install.Tests.{manager}
use qrx_node_suite.Store.{Store, has}
use qrx_node_suite.Store.Live.{IsLive}
use qrx_node_suite.World.{World, HistoryRecord}
use qrx_node_suite.Updates.{Controller, rollback_component}
use qrx_node_suite.Updates.Live.{rollback_component-IsLive}

abbrev dashboard : Store
dashboard = record {
  component = "dashboard";
  disk = record {
    current = some "1.1.0";
    previous = some "1.0.0";
    staged = none;
    releases = "1.1.0" ∷ "1.0.0" ∷ [];
    unlink_fails = λ n. false;
  };
  ticks = 0;
  fails = λ n. false;
}

-- The health check is the third call outside the store.
abbrev unhealthy : World
unhealthy = record {
  settings = [];
  store = dashboard;
  history = [];
  audited = 0;
  ticks = 0;
  fails = λ n. eqb n 2;
}

abbrev controller : Controller
controller = record { requires_restart = true; is_self_binary = false; adapter_name = none }

dashboard-IsLive : IsLive dashboard.disk
unfolding has
dashboard-IsLive = record { current_live = refl; previous_live = refl }

rollback_component-IsLive_example :
    IsLive (rollback_component (some controller) "dashboard" unhealthy).1.store.disk
rollback_component-IsLive_example =
    rollback_component-IsLive (some controller) "dashboard" unhealthy dashboard-IsLive

abbrev marker : PendingSelfUpdate
marker = record {
  component = "agent";
  from_version = "1.0.0";
  to_version = "1.1.0";
  channel = "stable";
  history_id = 7;
}

-- The agent runs its new version, and its health check fails: the third call.
abbrev sick : World
sick = record {
  settings = (pending_self_update "agent", pending marker) ∷ [];
  store = record dashboard { component = "agent" };
  history = [];
  audited = 0;
  ticks = 0;
  fails = λ n. eqb n 2;
}

resume_self_update-Closed_example :
    let (o, t) = resume_self_update (manager true) "agent" sick in
    IsLive t.store.disk
    × ((r : HistoryRecord) → o ≡ ok (some r) → Closed sick.store.disk t.store.disk r)
resume_self_update-Closed_example =
    resume_self_update-Closed (manager true) "agent" sick dashboard-IsLive
