-- ===== src/Server/Http.antt =====
-- agent/api/server.go and agent/api/httputil.go: what the handlers share. `W` is whatever the parts
-- behind the API keep; a part that is not configured is none.
--
-- JSON, the router and the file of a profile are the libraries' and the system's: fields of a record.
-- A body that is written is a value here, and its encoding is not modelled.
use qrx_node_suite.Prelude.{ℕ, String, Bool, Option, none, some, List}
use qrx_node_suite.Errors.{Err, Result, ok, err}
use qrx_node_suite.Exec.{Exec}
use qrx_node_suite.Guardian.{HealthState}
use qrx_node_suite.Alerts.{Alert}
use qrx_node_suite.Node.{Models, NodeStatus, Snapshot}
use qrx_node_suite.Version.Profile.{CompatibilityProfile}
use qrx_node_suite.World.{HistoryRecord}
use qrx_node_suite.Updates.Install.{InstallOptions, InstallResult}
use qrx_node_suite.Updates.Check.{CheckResult}
use qrx_node_suite.QrxCore.{SwitchOptions}

pub record VersionInfo : Type 0 where
  pub suite_version : String
  pub agent_version : String
  pub dashboard_version : String
  pub adapter_name : String
  pub adapter_version : String
  pub qrx_core_version : String
  pub api_version : String
  pub telemetry_protocol_version : ℕ
  pub config_schema_version : ℕ

pub data ServiceState : Type 0 where
  service_running service_stopped service_failed service_unknown : ServiceState

-- An event of the audit log, less its time and address.
pub record AuditEvent : Type 0 where
  pub actor : String
  pub action : String
  pub component : String
  pub details : String
  pub cause : Option Err

-- What a response carries: an error's text, one of the sentinel errors, or a value.
pub data Body (m : Models) : Type 0 where
  message : String → Body m
  cause : Err → Body m
  empty : Body m
  authenticated : Body m
  done_status : String → Body m
  named : String → String → Body m
  check_result : CheckResult → Body m
  check_results : List CheckResult → Body m
  by_component : List (String × CheckResult) → Body m
  install_result : InstallResult → Body m
  rollback_result : Bool → Body m
  switched : HistoryRecord → Body m
  version_info : VersionInfo → Body m
  status : HealthState → NodeStatus m → m.SystemStatus → String → String → Body m
  node : NodeStatus m → Body m
  network : m.NetworkStatus → Body m
  blockchain : m.BlockchainStatus → Body m
  mempool : m.MempoolStatus → Body m
  validator : m.ValidatorStatus → m.BlockProducerStatus → Body m
  velocity : m.VelocityStatus → m.NonceLanes → Body m
  system : m.SystemStatus → Body m
  activity : List (m.RecentBlock) → List (m.RecentTransaction) → Body m
  alerts : List Alert → Body m
  service : String → ServiceState → Body m
  settings : List (String × String) → Body m
  event_stream : Body m

pub record Response (m : Models) : Type 0 where
  pub code : ℕ
  pub body : Body m

pub record CheckRequest : Type 0 where
  pub component : String

pub record PlanRequest : Type 0 where
  pub components : List String

pub record InstallRequest : Type 0 where
  pub component : String
  pub channel : String
  pub allow_downgrade : Bool
  pub force : Bool

pub record RollbackRequest : Type 0 where
  pub component : String

pub record ActivateVersionRequest : Type 0 where
  pub version : String
  pub allow_unsupported : Bool

pub record QrxCoreSwitchRequest : Type 0 where
  pub version : String
  pub expert_override : Bool
  pub profile_path : String

-- What decoding a body of at most so many bytes, with no unknown field, comes to.
pub data Decoded (A : Type 0) : Type 0 where
  decoded : A → Decoded A
  too_large malformed : Decoded A

pub record Decoder : Type 0 where
  pub check_request : ℕ → String → Decoded CheckRequest
  pub plan_request : ℕ → String → Decoded PlanRequest
  pub install_request : ℕ → String → Decoded InstallRequest
  pub rollback_request : ℕ → String → Decoded RollbackRequest
  pub activate_request : ℕ → String → Decoded ActivateVersionRequest
  pub switch_request : ℕ → String → Decoded QrxCoreSwitchRequest

-- A request; the router sets the component of its path.
pub record Request : Type 0 where
  pub method : String
  pub path : String
  pub host : String
  pub authorization : String
  pub path_component : String
  pub unresolved : String
  pub body : Option String
  -- ContentLength is 0.
  pub is_empty : Bool

-- updates.Manager; the last argument of a write is the actor.
pub record UpdateService (W : Type 0) : Type 0 where
  pub check : String → Exec W CheckResult
  pub install : String → InstallOptions → String → Exec W InstallResult
  pub rollback : String → String → Exec W Bool

-- updates.QRXCoreUpdateManager.
pub record CoreService (W : Type 0) : Type 0 where
  pub automatic_enabled : Exec W Bool
  pub switch_version : String → SwitchOptions → String → Exec W HistoryRecord

pub record Deps (m : Models) (W : Type 0) : Type 0 where
  pub cache : Snapshot m
  pub has_bus : Bool
  pub registry : Option (String → Bool → Exec W (Unit {0}))
  pub updates : Option (UpdateService W)
  pub qrx_core : Option (CoreService W)
  pub audit : Option (AuditEvent → Exec W (Unit {0}))
  pub alerts : Option (Bool → ℕ → Exec W (List Alert))
  pub settings : Option (Exec W (List (String × String)))
  pub version_info : Option VersionInfo
  pub update_components : List String
  pub admin_token : String
  pub restart_qrx_service : Option (Exec W (Unit {0}))
  pub request_self_restart : Option (W → W)
  pub decoder : Decoder
  pub load_profile : String → Result CompatibilityProfile
  pub format_rfc3339 : ℕ → String

abbrev pub max_request_body_bytes : ℕ
max_request_body_bytes = 65536

-- A handler writes one response, and may change what is behind the API.
abbrev pub Handler : Models → Type 0 → Type 0
Handler m W = W → Response m × W

module _ {m : Models} where
  abbrev pub response : ℕ → Body m → Response m
  response code body = record { code = code; body = body }

  abbrev pub http_error : ℕ → String → Response m
  http_error code text = response code (message text)

module _ {m : Models} {W : Type 0} where
  abbrev pub write : ℕ → Body m → Handler m W
  write code body w = (response code body, w)

  abbrev pub refuse : ℕ → String → Handler m W
  refuse code text w = (http_error code text, w)

  abbrev pub reply : {A : Type 0} → ℕ → (A → Handler m W) → Result A × W → Response m × W
  reply code next (ok a, w) = next a w
  reply code next (err e, w) = (response code (cause e), w)

  -- `if err != nil { httpError(w, code, err.Error()); return }`.
  unfoldable pub answer : {A : Type 0} → ℕ → Exec W A → (A → Handler m W) → Handler m W
  answer code x next w = reply code next (x w)

  abbrev pub accept : {A : Type 0} → Decoded A → (A → Handler m W) → Handler m W
  accept (decoded a) next = next a
  accept too_large next = refuse 413 "request body too large"
  accept malformed next = refuse 400 "invalid request body"

  -- decodeJSON, in front of the rest of the handler.
  unfoldable pub decode_json :
      {A : Type 0} → (ℕ → String → Decoded A) → Option String → (A → Handler m W) → Handler m W
  decode_json read none next = refuse 400 "request body required"
  decode_json read (some text) next = accept (read max_request_body_bytes text) next

  -- A part of the agent that may not be configured.
  unfoldable pub configured :
      {A : Type 0} → Option A → Handler m W → (A → Handler m W) → Handler m W
  configured none missing next = missing
  configured (some a) missing next = next a
