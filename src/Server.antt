-- ===== src/Server.antt =====
-- agent/api/server.go: the routes, and the guards in front of them.
--
-- Go's router is a parameter: of the patterns that are registered it chooses the one of a request, and
-- answers itself where there is none.
pub mod Http
pub mod Updates
pub mod Status
pub mod Reading
pub mod Guarded
pub mod Agent
pub mod Offers
mod Tests
use qrx_node_suite.Prelude.{
  ℕ, String, Bool, true, false, Option, none, some, List, [], ◌∷◌, map, if◌then◌else◌, ◌==◌,
}
use qrx_node_suite.Node.{Models}
use qrx_node_suite.Api.{
  Net, Answer, admitted, forbidden, unauthorized, require_admin, is_allowed_host,
}
use qrx_node_suite.Server.Http.{Deps, Request, Handler, refuse}
use qrx_node_suite.Server.Updates.{
  handle_updates_status, handle_updates_check, handle_updates_plan, handle_updates_install,
  handle_updates_rollback, handle_activate_version, handle_qrx_core_switch, handle_service_restart,
}
use qrx_node_suite.Server.Status.{
  handle_version, handle_versions, handle_status, handle_node, handle_network, handle_blockchain,
  handle_mempool, handle_validator, handle_velocity, handle_system, handle_activity,
  handle_alerts_list, handle_services, handle_settings_get, handle_events, handle_admin_session,
  handle_health,
}

-- The handlers that NewMux registers.
pub data Endpoint : Type 0 where
  health version versions status node network blockchain mempool validator velocity : Endpoint
  system activity services settings admin_session alerts events : Endpoint
  updates_status updates_check updates_plan updates_install updates_rollback : Endpoint
  activate_version qrx_core_switch service_restart : Endpoint

pub record Route : Type 0 where
  pub pattern : String
  -- The handler stands behind RequireAdmin.
  pub is_admin : Bool
  pub endpoint : Endpoint

abbrev pub open_route : String → Endpoint → Route
open_route pattern e = record { pattern = pattern; is_admin = false; endpoint = e }

abbrev pub admin_route : String → Endpoint → Route
admin_route pattern e = record { pattern = pattern; is_admin = true; endpoint = e }

pub routes : List Route
routes =
    open_route "GET /health" health
    ∷ open_route "GET /api/v1/version" version
    ∷ open_route "GET /api/v1/versions" versions
    ∷ open_route "GET /api/v1/status" status
    ∷ open_route "GET /api/v1/node" node
    ∷ open_route "GET /api/v1/network" network
    ∷ open_route "GET /api/v1/blockchain" blockchain
    ∷ open_route "GET /api/v1/mempool" mempool
    ∷ open_route "GET /api/v1/validator" validator
    ∷ open_route "GET /api/v1/velocity" velocity
    ∷ open_route "GET /api/v1/system" system
    ∷ open_route "GET /api/v1/activity" activity
    ∷ open_route "GET /api/v1/services" services
    ∷ open_route "GET /api/v1/settings" settings
    ∷ admin_route "GET /api/v1/admin/session" admin_session
    ∷ open_route "GET /api/v1/alerts" alerts
    ∷ open_route "GET /api/v1/events" events
    ∷ open_route "GET /api/v1/updates" updates_status
    ∷ open_route "POST /api/v1/updates/check" updates_check
    ∷ open_route "POST /api/v1/updates/plan" updates_plan
    ∷ admin_route "POST /api/v1/updates/install" updates_install
    ∷ admin_route "POST /api/v1/updates/rollback" updates_rollback
    ∷ admin_route "POST /api/v1/components/{component}/activate-version" activate_version
    ∷ admin_route "POST /api/v1/qrx-core/switch" qrx_core_switch
    ∷ admin_route "POST /api/v1/services/qrx/restart" service_restart
    ∷ []

pub find_route : String → List Route → Option Route
find_route pattern [] = none
find_route pattern (r ∷ rest) =
    let found = find_route pattern rest in if r.pattern == pattern then some r else found

-- The router: the patterns, the method and the path.
abbrev pub Mux : Type 0
Mux = List String → String → String → Option String

module _ {m : Models} {W : Type 0} (d : Deps m W) where
  pub handle : Endpoint → Request → String → Handler m W
  handle health req actor = handle_health d
  handle version req actor = handle_version d
  handle versions req actor = handle_versions d
  handle status req actor = handle_status d
  handle node req actor = handle_node d
  handle network req actor = handle_network d
  handle blockchain req actor = handle_blockchain d
  handle mempool req actor = handle_mempool d
  handle validator req actor = handle_validator d
  handle velocity req actor = handle_velocity d
  handle system req actor = handle_system d
  handle activity req actor = handle_activity d
  handle services req actor = handle_services d
  handle settings req actor = handle_settings_get d
  handle admin_session req actor = handle_admin_session d
  handle alerts req actor = handle_alerts_list d req
  handle events req actor = handle_events d
  handle updates_status req actor = handle_updates_status d
  handle updates_check req actor = handle_updates_check d req
  handle updates_plan req actor = handle_updates_plan d req
  handle updates_install req actor = handle_updates_install d req actor
  handle updates_rollback req actor = handle_updates_rollback d req actor
  handle activate_version req actor = handle_activate_version d req actor
  handle qrx_core_switch req actor = handle_qrx_core_switch d req actor
  handle service_restart req actor = handle_service_restart d actor

  -- RequireAdmin around a handler.
  pub guarded : Answer → Endpoint → Request → Handler m W
  unfolding handle
  guarded (admitted actor) e req = handle e req actor
  guarded forbidden e req = refuse 403 "administrative endpoints are disabled"
  guarded unauthorized e req = refuse 401 "missing or invalid bearer token"

  -- Without RequireAdmin there is no actor in the context.
  pub dispatch : Option Route → Request → Handler m W
  unfolding guarded
  dispatch none req = refuse 404 "404 page not found"
  dispatch (some r) req =
      if r.is_admin
      then guarded (require_admin d.admin_token req.authorization) r.endpoint req
      else handle r.endpoint req "unknown"

  pub routed : Mux → Request → Option Route
  unfolding routes find_route
  routed mux req = elim (mux (map (λ (r : Route). r.pattern) routes) req.method req.path) [
    | none ↦ none
    | some pattern ↦ find_route pattern routes
  ]

  -- The handler that NewMux returns.
  pub serve : Net → Mux → Request → Handler m W
  unfolding dispatch routed
  serve net mux req =
      if is_allowed_host net req.host
      then dispatch (routed mux req) req
      else refuse 403 "request Host header not allowed"
