-- ===== src/Errors.antt =====
-- The sentinel errors of the agent's packages, and the results of code that may fail. A wrapped
-- error (fmt.Errorf with %w) is its sentinel: the text around it is not modelled.
use qrx_node_suite.Prelude.{ℕ, String}

pub data Err : Type 0 where
  -- a failed call of the operating system, of the database or of an external service
  io_failure : Err
  -- agent/updates/store
  invalid_component : String → Err
  already_active : String → Err
  already_previous : String → Err
  nothing_staged : Err
  no_previous : Err
  not_installed : String → Err
  no_active : Err
  -- agent/updates/manifest
  invalid_manifest : Err
  no_public_key : Err
  invalid_manifest_signature : Err
  checksum_mismatch : Err
  invalid_artifact_signature : Err
  downgrade_blocked : String → String → Err
  incompatible_update : Err
  replayed : Err
  not_rfc3339 : Err
  -- agent/updates
  updates_locked : Err
  outside_window : Err
  pinned_elsewhere : String → Err
  no_update_for_component : String → Err
  unknown_component : String → Err
  no_rollback_target : Err
  already_installed : String → Err
  already_rollback_target : String → Err
  adapter_blocked : Err
  invalid_channel : String → Err
  bad_json : Err
  start_failed : Err → Err
  health_check_failed : Err → Err
  marker_failed : Err → Err
  -- agent/updates/qrx_core.go
  profile_required : Err
  switch_safety_unknown : Err
  switch_safety_incompatible : Err
  core_not_installed : String → Err
  core_validation_failed : Err
  -- agent/updates/components
  restart_missed : String → Err
  no_active_adapter : Err
  other_adapter_active : String → Err
  combination_refused : Err
  escapes_directory : String → Err
  unsupported_entry : String → Err
  broken_archive : Err
  cancelled : Err
  -- agent/updates/sources
  bad_status : ℕ → Err
  no_release : String → Err
  no_asset : String → Err
  not_registered : String → Err
  -- agent/cmd/agentd
  bad_source : Err
  -- agent/config
  no_migration_path : Err
  -- agent/qrx
  command_timeout : Err
  command_failed : Err
  rpc_failed : String → Err
  -- agent/adapters
  adapter_not_installed : String → Err
  no_compatible_adapter : Err
  adapter_disabled : Err
  adapter_health_failed : Err

pub data Result (A : Type 0) : Type 0 where
  ok : A → Result A
  err : Err → Result A
