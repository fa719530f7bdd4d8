-- ===== src/Server/Status.antt =====
-- agent/api/handlers_status.go and agent/api/handlers_version.go: the handlers that only read. A request
-- for the cache answers with its snapshot at the request; the stream of events is the bus's.
use qrx_node_suite.Prelude.{[], if◌then◌else◌, ◌==◌}
use qrx_node_suite.Guardian.{HealthState, health_offline, same_health}
use qrx_node_suite.Node.{Models}
use qrx_node_suite.Updates.Check.{plan}
use qrx_node_suite.Server.Http.{
  Deps, Request, Handler, VersionInfo, ServiceState, service_running, service_stopped,
  authenticated, done_status, check_results, version_info, status, node, network, blockchain,
  mempool, validator, velocity, system, activity, alerts, service, settings, event_stream, write,
  refuse, answer, configured,
}

-- The zero VersionInfo.
abbrev pub no_version_info : VersionInfo
no_version_info = record {
  suite_version = "";
  agent_version = "";
  dashboard_version = "";
  adapter_name = "";
  adapter_version = "";
  qrx_core_version = "";
  api_version = "";
  telemetry_protocol_version = 0;
  config_schema_version = 0;
}

-- qrxd counts as stopped exactly while Guardian calls the node offline.
pub service_state : HealthState → ServiceState
service_state h = if same_health h health_offline then service_stopped else service_running

module _ {m : Models} {W : Type 0} (d : Deps m W) where
  unfoldable pub handle_version : Handler m W
  handle_version =
      configured d.version_info (write 200 (version_info no_version_info))
        λ info. write 200 (version_info info)

  unfoldable pub handle_versions : Handler m W
  handle_versions = configured d.updates (write 200 (check_results [])) λ service.
      answer 502 (plan service.check d.update_components)
        λ results. write 200 (check_results results)

  unfoldable pub handle_status : Handler m W
  handle_status =
      let s = d.cache in
      write 200 (status s.health s.node s.system s.adapter_name (d.format_rfc3339 s.updated_at))

  unfoldable pub handle_node : Handler m W
  handle_node = write 200 (node d.cache.node)

  unfoldable pub handle_network : Handler m W
  handle_network = write 200 (network d.cache.network)

  unfoldable pub handle_blockchain : Handler m W
  handle_blockchain = write 200 (blockchain d.cache.blockchain)

  unfoldable pub handle_mempool : Handler m W
  handle_mempool = write 200 (mempool d.cache.mempool)

  unfoldable pub handle_validator : Handler m W
  handle_validator = write 200 (validator d.cache.validator d.cache.block_producer)

  unfoldable pub handle_velocity : Handler m W
  handle_velocity = write 200 (velocity d.cache.velocity d.cache.nonce_lanes)

  unfoldable pub handle_system : Handler m W
  handle_system = write 200 (system d.cache.system)

  unfoldable pub handle_activity : Handler m W
  handle_activity = write 200 (activity d.cache.recent_blocks d.cache.recent_transactions)

  unfoldable pub handle_alerts_list : Request → Handler m W
  handle_alerts_list req =
      configured d.alerts (write 200 (alerts []))
        λ list. answer 500 (list (req.unresolved == "true") 100) λ rows. write 200 (alerts rows)

  unfoldable pub handle_services : Handler m W
  unfolding service_state
  handle_services = write 200 (service "qrxd" (service_state d.cache.health))

  unfoldable pub handle_settings_get : Handler m W
  handle_settings_get =
      configured d.settings (write 200 (settings []))
        λ all. answer 500 all λ rows. write 200 (settings rows)

  unfoldable pub handle_events : Handler m W
  handle_events =
      if d.has_bus then write 200 event_stream else refuse 503 "event bus not configured"

  unfoldable pub handle_admin_session : Handler m W
  handle_admin_session = write 200 authenticated

  unfoldable pub handle_health : Handler m W
  handle_health = write 200 (done_status "ok")
