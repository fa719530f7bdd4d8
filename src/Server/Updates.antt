-- ===== src/Server/Updates.antt =====
-- agent/api/handlers_updates.go and agent/api/handlers_admin.go: the handlers that ask for an update,
-- a switch or a restart.
use qrx_node_suite.Prelude.{
  String, Bool, true, false, Option, none, some, List, [], ◌∷◌, if◌then◌else◌, ◌==◌,
}
use qrx_node_suite.Errors.{Err, Result, ok, err}
use qrx_node_suite.Exec.{Exec}
use qrx_node_suite.Node.{Models}
use qrx_node_suite.QrxCore.{qrx_core_component}
use qrx_node_suite.Updates.Check.{CheckResult, plan}
use qrx_node_suite.Server.Http.{
  Deps, Request, Response, Handler, AuditEvent, CoreService, InstallRequest, done_status, cause,
  empty, named, check_result, check_results, by_component, install_result, rollback_result,
  switched, response, write, refuse, answer, decode_json, configured,
}

-- A write to a Go map.
unfoldable pub put : {A : Type 0} → String → A → List (String × A) → List (String × A)
put k a [] = (k, a) ∷ []
put k a ((j, b) ∷ rest) =
    let others = put k a rest in if j == k then (k, a) ∷ rest else (j, b) ∷ others

unfoldable pub index : List CheckResult → List (String × CheckResult) → List (String × CheckResult)
unfolding put
index [] out = out
index (r ∷ results) out = index results (put r.component r out)

abbrev pub policy_name : Bool → String
policy_name true = "automatic"
policy_name false = "manual"

-- The zero CheckResult with its component and channel.
abbrev pub policy_row : String → CheckResult
policy_row policy = record {
  component = "qrx_core";
  channel = policy;
  current = "";
  latest = "";
  update_available = false;
  pinned = false;
  compatible = false;
  blocked = false;
  block_reason = none;
  restart_required = false;
  rollback_available = false;
  check_error = none;
}

abbrev pub or_manual : Result Bool → String
or_manual (ok auto) = policy_name auto
or_manual (err e) = policy_name false

abbrev pub or_default : List String → List String → List String
or_default [] defaults = defaults
or_default (c ∷ names) defaults = c ∷ names

-- The restart of the process, after the response is written.
abbrev pub self_restart : {W : Type 0} → Bool → Option (W → W) → W → W
self_restart true (some restart) w = restart w
self_restart true none w = w
self_restart false restart w = w

module _ {m : Models} {W : Type 0} (d : Deps m W) where
  unfoldable pub with_policy : Option (CoreService W) → List (String × CheckResult) → Handler m W
  with_policy none out w = (response 200 (by_component out), w)
  with_policy (some core) out w =
      let (r, u) = core.automatic_enabled w in
      (response 200 (by_component (put "qrx_core_policy" (policy_row (or_manual r)) out)), u)

  unfoldable pub handle_updates_status : Handler m W
  unfolding index
  handle_updates_status = configured d.updates (write 200 empty) λ service.
      answer 502 (plan service.check d.update_components)
        λ results. with_policy d.qrx_core (index results [])

  unfoldable pub handle_updates_check : Request → Handler m W
  handle_updates_check req = decode_json d.decoder.check_request req.body λ r.
      configured d.updates (refuse 503 "update manager not configured")
        λ service. answer 502 (service.check r.component) λ result. write 200 (check_result result)

  unfoldable pub plan_for : List String → Handler m W
  plan_for components = configured d.updates (refuse 503 "update manager not configured") λ service.
      answer 502 (plan service.check (or_default components d.update_components))
        λ results. write 200 (check_results results)

  unfoldable pub handle_updates_plan : Request → Handler m W
  handle_updates_plan req =
      if req.is_empty
      then plan_for []
      else decode_json d.decoder.plan_request req.body (λ r. plan_for r.components)

  unfoldable pub install_from : String → InstallRequest → Handler m W
  install_from actor r =
      configured d.updates (refuse 503 "update manager not configured") λ service.
        answer 409
          (service.install r.component
            (record {
              channel = r.channel;
              allow_downgrade = r.allow_downgrade;
              manual = true;
              force = r.force;
            })
            actor)
          λ result w. (
            response 200 (install_result result),
            self_restart result.pending_restart d.request_self_restart w,
          )

  unfoldable pub handle_updates_install : Request → String → Handler m W
  handle_updates_install req actor =
      decode_json d.decoder.install_request req.body (install_from actor)

  unfoldable pub rollback_for : String → String → Handler m W
  rollback_for component actor =
      configured d.updates (refuse 503 "update manager not configured") λ service.
        answer 409 (service.rollback component actor) λ pending w.
          (response 200 (rollback_result pending), self_restart pending d.request_self_restart w)

  unfoldable pub handle_updates_rollback : Request → String → Handler m W
  handle_updates_rollback req actor = decode_json d.decoder.rollback_request req.body λ r.
      if r.component == qrx_core_component
      then refuse 400 "QRX Core rollback goes through POST /api/v1/qrx-core/switch"
      else rollback_for r.component actor

  -- An audit event, whose error is dropped.
  abbrev pub recorded : Option (AuditEvent → Exec W (Unit {0})) → AuditEvent → W → W
  recorded none e w = w
  recorded (some record_event) e w = (record_event e w).1

  unfoldable pub handle_activate_version : Request → String → Handler m W
  handle_activate_version req actor = decode_json d.decoder.activate_request req.body λ r.
      configured d.registry (refuse 503 "adapter registry not configured") λ activate.
        answer 409 (activate req.path_component r.allow_unsupported) λ done w. (
          response 200 (named "activated" req.path_component),
          recorded d.audit
              (record {
                actor = actor;
                action = "ADMIN_SWITCH_ADAPTER";
                component = req.path_component;
                details = r.version;
                cause = none;
              })
              w,
        )

  unfoldable pub handle_qrx_core_switch : Request → String → Handler m W
  handle_qrx_core_switch req actor = decode_json d.decoder.switch_request req.body λ r.
      configured d.qrx_core (refuse 503 "QRX Core update manager not configured") λ core.
        if r.profile_path == ""
        then refuse 400 "profile_path is required"
        else answer 400 (λ w. (d.load_profile r.profile_path, w))
            λ profile.
              answer 409
                (core.switch_version r.version
                  (record { profile = some profile; expert_override = r.expert_override }) actor)
                λ rec. write 200 (switched rec)

  abbrev pub restart_event : String → String → Option Err → AuditEvent
  restart_event actor details e = record {
    actor = actor;
    action = "ADMIN_SERVICE_RESTART";
    component = "qrxd";
    details = details;
    cause = e;
  }

  unfoldable pub restarted : String → Result (Unit {0}) × W → Response m × W
  restarted actor (ok a, w) = (
    response 200 (done_status "restarted"),
    recorded d.audit (restart_event actor "succeeded" none) w,
  )
  restarted actor (err e, w) =
      (response 500 (cause e), recorded d.audit (restart_event actor "failed: " (some e)) w)

  unfoldable pub handle_service_restart : String → Handler m W
  unfolding restarted
  handle_service_restart actor =
      configured d.restart_qrx_service
        (refuse 404 "service restart is not configured on this Agent")
        λ restart w. restarted actor (restart w)
