-- ===== src/Server/Tests.antt =====
-- A request for an install, and the theorems on the API applied to it.
use qrx_node_suite.Prelude.{◌≡◌, ◌⊎◌, refl, String, true, false, none, some, [], ◌∷◌}
use mathlib.Core.Path.{subst}
use qrx_node_suite.Errors.{err, io_failure}
use qrx_node_suite.Poller.Tests.{models, empty}
use qrx_node_suite.Api.Tests.{net, host}
use qrx_node_suite.Updates.Install.Tests.{manager, before}
use qrx_node_suite.Server.{Endpoint, Route, Mux, routed, serve}
use qrx_node_suite.Server.Http.{Deps, Request, decoded, malformed}
use qrx_node_suite.Server.Reading.{ReadsOnly}
use qrx_node_suite.Server.Guarded.{Authorized, Permitted, serve-Permitted}
use qrx_node_suite.Server.Agent.{Agent, view, with_manager}
use qrx_node_suite.Server.Offers.{Warranted, with_manager-ReadsOnly, serve-Warranted}

abbrev base : Deps models Agent
base = record {
  cache = empty;
  has_bus = true;
  registry = none;
  updates = none;
  qrx_core = none;
  audit = none;
  alerts = none;
  settings = none;
  version_info = none;
  update_components = "agent" ∷ [];
  admin_token = "secret";
  restart_qrx_service = none;
  request_self_restart = some (λ a. a);
  decoder = record {
    check_request = λ n text. decoded (record { component = "agent" });
    plan_request = λ n text. malformed;
    install_request = λ n text.
        decoded
          (record { component = "agent"; channel = ""; allow_downgrade = false; force = false });
    rollback_request = λ n text. decoded (record { component = "agent" });
    activate_request = λ n text. malformed;
    switch_request = λ n text. malformed;
  };
  load_profile = λ path. err io_failure;
  format_rfc3339 = λ t. "";
}

-- The other parts are not configured, so they change nothing.
base-ReadsOnly : (k : String) → ReadsOnly (view k) base
base-ReadsOnly k = record {
  check_reads = λ s p. cc;
  automatic_reads = λ s p. cc;
  alerts_reads = λ f p. cc;
  settings_reads = λ x p. cc;
}

abbrev mux : Mux
mux = λ patterns method path. some "POST /api/v1/updates/install"

abbrev request : Request
request = record {
  method = "POST";
  path = "/api/v1/updates/install";
  host = host;
  authorization = "Bearer secret";
  path_component = "";
  unresolved = "";
  body = some "{}";
  is_empty = false;
}

abbrev agent : Agent
agent = record { shared = before (λ n. false); stores = λ c. (before (λ n. false)).store }

abbrev install_route : Route
install_route = record {
  pattern = "POST /api/v1/updates/install";
  is_admin = true;
  endpoint = Endpoint.updates_install;
}

chosen : routed (with_manager base (manager true)) mux request ≡ some install_route
unfolding routed
chosen = refl

some_eq : {A : Type 0} {a b : A} → some a ≡ some b → a ≡ b
some_eq h = cc

kept :
    (k : String) (f : Agent → Agent) (a : Agent)
    → some (λ (b : Agent). b) ≡ some f
    → view k (f a) ≡ view k a
kept k f a p = subst (λ (g : Agent → Agent). view k (g a) ≡ view k a) (some_eq p) refl

serve-Permitted_example :
    Permitted
      (view "agent")
      (with_manager base (manager true))
      (with_manager-ReadsOnly base (manager true) "agent" (base-ReadsOnly "agent"))
      net
      mux
      request
      agent
      (serve (with_manager base (manager true)) net mux request agent)
serve-Permitted_example =
    serve-Permitted (view "agent") (with_manager base (manager true))
      (with_manager-ReadsOnly base (manager true) "agent" (base-ReadsOnly "agent")) net mux request
      agent

serve-Warranted_example :
    (view "agent" (serve (with_manager base (manager true)) net mux request agent).1
      ≡ view "agent" agent)
    ⊎ (Authorized (with_manager base (manager true)) net request
        × Warranted base (manager true) request agent)
serve-Warranted_example =
    serve-Warranted base (manager true) kept net mux request install_route base-ReadsOnly chosen
      refl "agent" agent
