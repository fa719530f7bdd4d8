-- ===== src/QrxCore.antt =====
-- agent/updates/qrx_core.go: the switch and the update of QRX Core itself, which run under stricter
-- gates than the manager's install, over the same store, policy and history.
pub mod Live
pub mod Gates
pub mod Update
pub mod Committed
mod Tests
use qrx_node_suite.Prelude.{
  ℕ, eqb, String, Bool, true, false, not, ◌&&◌, ◌||◌, Option, none, some, List, [], ◌∷◌,
  if◌then◌else◌, ◌==◌,
}
use qrx_node_suite.Errors.{
  Err, Result, ok, err, profile_required, switch_safety_unknown, switch_safety_incompatible,
  core_not_installed, core_validation_failed, no_update_for_component, io_failure,
}
use qrx_node_suite.Exec.{
  Exec, done, fail, reads, modify, ◌>>=◌, ◌>>◌, guard, ◌otherwise◌, ignoring, attempt,
}
use qrx_node_suite.Policy.{
  Settings, channel_or_default, channel, last_released_at, record_manifest_seen,
}
use qrx_node_suite.Version.Profile.{
  CompatibilityProfile, SwitchRefusal, safety_incompatible, safety_unknown, check_switch_safety,
}
use qrx_node_suite.Manifest.{Manifest, ComponentUpdate, component as find_component}
use qrx_node_suite.Manifest.Verify.{
  Library, verify_manifest_signature, verify_artifact, check_not_replayed, check_not_downgrade,
}
use qrx_node_suite.Store.{read_current, stage, discard_staged, promote, promote_version}
use qrx_node_suite.Store.Prune.{prune, installed_versions}
use qrx_node_suite.World.{
  World, HistoryRecord, UpdateStatus, status_succeeded, status_rolled_back, outside, on_store, asks,
  sets, insert, audit, check, shown, tick,
}

abbrev pub qrx_core_component : String
qrx_core_component = "qrx_core"

pub record QrxCoreHealth : Type 0 where
  pub process_running : Bool
  pub network_connected : Bool
  pub block_height_progressing : Bool
  pub peer_count : ℕ
  pub validator_state : String
  pub available : Bool
  pub detail : String

pub is_healthy : QrxCoreHealth → Bool
is_healthy h = h.available && h.process_running && h.network_connected && h.block_height_progressing

-- What surrounds a manager: the key and the source, whether StopCore and StartCore are set, and the
-- probe, where one is set, by the tick at which it is asked.
pub record QrxCoreUpdateManager : Type 0 where
  pub library : Library
  pub public_key : List ℕ
  pub fetch_manifest : String → Manifest
  pub open_artifact : String → List ℕ
  pub has_stop : Bool
  pub has_start : Bool
  pub probe : Option (ℕ → Result QrxCoreHealth)
  pub is_validator_node : Bool
  -- A negative count is 0.
  pub retain_versions : ℕ

pub record SwitchOptions : Type 0 where
  pub profile : Option CompatibilityProfile
  pub expert_override : Bool

pub record UpdateOptions : Type 0 where
  pub channel : String
  pub allow_downgrade : Bool
  pub switch : SwitchOptions

-- What Update passes before it downloads: the offer, its channel, and the active version.
pub record Offer : Type 0 where
  pub channel : String
  pub manifest : Manifest
  pub update : ComponentUpdate
  pub from : String

abbrev pub refusal : Option SwitchRefusal → Option Err
refusal none = none
refusal (some safety_incompatible) = some switch_safety_incompatible
refusal (some safety_unknown) = some switch_safety_unknown

pub contains : List String → String → Bool
contains [] v = false
contains (s ∷ list) v = let rest = contains list v in if s == v then true else rest

pub call_if : Bool → Exec World (Unit {0})
call_if b = if b then outside else done tt

module _ (m : QrxCoreUpdateManager) where
  pub retained : ℕ
  retained = if eqb m.retain_versions 0 then 2 else m.retain_versions

  pub automatic_enabled : Exec World Bool
  unfolding ◌>>=◌
  automatic_enabled = if m.is_validator_node then done false else (do
    ch ← asks (channel_or_default qrx_core_component "manual")
    done (not (ch == "manual")))

  pub require_profile : SwitchOptions → Exec World CompatibilityProfile
  require_profile opts = elim opts.profile [ none ↦ fail profile_required | some p ↦ done p ]

  pub probe_or_unavailable : Exec World QrxCoreHealth
  probe_or_unavailable w = elim m.probe [
    | none ↦ (err io_failure, w)
    | some f ↦ (f w.ticks, tick w)
  ]

  abbrev pub row : String → String → UpdateStatus → Bool → HistoryRecord
  row from target status rollback_used = record {
    component = qrx_core_component;
    from_version = from;
    to_version = target;
    channel = "";
    status = status;
    rollback_used = rollback_used;
    checksum = "";
    manifest_version = 0;
  }

  -- The way back: the pointer, then the process. Its error only lengthens the message.
  pub swap_back : String → Exec World (Unit {0})
  unfolding ◌>>=◌
  swap_back from = do on_store (promote_version from); call_if m.has_stop; call_if m.has_start

  -- rollbackBinary returns the row beside its error; the row is in the history here.
  pub rollback_binary : String → String → Exec World HistoryRecord
  unfolding ◌>>=◌
  rollback_binary target from = do
    (if from == "" then done tt else ignoring (swap_back from))
    id ← insert (row from target status_rolled_back true)
    audit
    fail core_validation_failed

  -- StopCore, and the pointer where a switch has not moved it yet.
  pub stop_and_activate : String → Bool → Exec World (Unit {0})
  unfolding ◌>>=◌
  stop_and_activate target is_switch = do
    call_if m.has_stop
    (if is_switch then on_store (promote_version target) else done tt)

  pub validate : Exec World (Unit {0})
  unfolding ◌>>=◌
  validate = do health ← probe_or_unavailable; guard (is_healthy health) core_validation_failed

  pub commit : String → String → Exec World HistoryRecord
  unfolding ◌>>=◌
  commit target from = do
    ignoring (on_store (prune retained))
    id ← insert (row from target status_succeeded false)
    audit
    done (row from target status_succeeded false)

  -- START and VALIDATE, whose failures lead to the way back, then COMMIT.
  pub start_and_validate : String → String → Exec World (Unit {0})
  unfolding ◌>>=◌
  start_and_validate target from = do call_if m.has_start; validate

  pub activate_and_validate : String → String → Bool → Exec World HistoryRecord
  unfolding ◌>>=◌
  activate_and_validate target from is_switch = do
    stop_and_activate target is_switch
    failed ← attempt (start_and_validate target from)
    elim failed [ none ↦ commit target from | some e ↦ rollback_binary target from ]

  pub switch_version : String → SwitchOptions → Exec World HistoryRecord
  unfolding ◌>>=◌
  switch_version target opts = do
    p ← require_profile opts
    guard (p.qrx_core_version == target) profile_required
    check (refusal (check_switch_safety p opts.expert_override))
    installed ← on_store installed_versions
    guard (contains installed target) (core_not_installed target)
    from ← on_store read_current
    activate_and_validate target (shown from) true

  pub fetch_verified_manifest : String → Exec World Manifest
  unfolding ◌>>=◌
  fetch_verified_manifest ch = do
    outside
    let mf = m.fetch_manifest ch
    check (verify_manifest_signature m.library mf m.public_key)
    last_seen ← asks (last_released_at ch)
    check (check_not_replayed m.library mf last_seen)
    done mf

  pub channel_of : String → Exec World String
  channel_of ch = if ch == "" then asks (channel qrx_core_component) else done ch

  pub offered : Manifest → Exec World ComponentUpdate
  offered mf = elim (find_component qrx_core_component mf.components) [
    | none ↦ fail (no_update_for_component qrx_core_component)
    | some c ↦ done c
  ]

  pub gates : UpdateOptions → Exec World Offer
  unfolding ◌>>=◌
  gates opts = do
    p ← require_profile opts.switch
    check (refusal (check_switch_safety p opts.switch.expert_override))
    ch ← channel_of opts.channel
    mf ← fetch_verified_manifest ch
    c ← offered mf
    guard (p.qrx_core_version == c.version) profile_required
    cur ← on_store read_current
    check (check_not_downgrade (shown cur) c.version opts.allow_downgrade)
    done (record { channel = ch; manifest = mf; update = c; from = shown cur })

  -- OpenArtifact, the temporary file, the copy; VERIFY reads the file.
  pub download : Offer → Exec World (Unit {0})
  unfolding ◌>>=◌
  download o = do
    outside
    outside
    outside
    outside
    check (verify_artifact m.library (m.open_artifact o.update.url) o.update m.public_key)

  pub discard_and_fail : {A : Type 0} → Err → Exec World A
  unfolding ◌>>=◌
  discard_and_fail e = do ignoring (on_store (discard_staged true)); fail e

  -- The release directory, then the file opened again and copied to qrxd.
  pub stage_artifact : Offer → Exec World (Unit {0})
  unfolding ◌>>=◌
  stage_artifact o = do
    on_store (stage o.update.version)
    (do outside; outside) otherwise discard_and_fail

  pub carry_out : Offer → Exec World HistoryRecord
  unfolding ◌>>=◌
  carry_out o = do
    download o
    stage_artifact o
    on_store promote otherwise discard_and_fail
    sets (record_manifest_seen o.channel o.manifest.released_at)
    activate_and_validate o.update.version o.from false

  pub update : UpdateOptions → Exec World HistoryRecord
  unfolding ◌>>=◌
  update opts = do o ← gates opts; carry_out o
