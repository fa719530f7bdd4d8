-- ===== src/Manifest/Verify.antt =====
-- agent/updates/manifest/verify.go: the gates that a manifest and an artifact pass before an install.
pub mod Gates
use qrx_node_suite.Prelude.{
  ℕ, ◌≡◌, refl, String, Bool, true, false, not, ◌&&◌, Option, none, some, List, eqb, ltb,
  if◌then◌else◌, codes, ◌==◌, length,
}
use qrx_node_suite.Errors.{
  Err, Result, ok, err, no_public_key, invalid_manifest_signature, checksum_mismatch,
  invalid_artifact_signature, downgrade_blocked, incompatible_update, replayed, not_rfc3339,
}
use qrx_node_suite.Version.SemVer.{compare_version, is_lt}
use qrx_node_suite.Version.Range.{satisfies}
use qrx_node_suite.Manifest.{Manifest, ComponentUpdate, ReleaseNotes, canonical_payload}

-- What the checks take from Go's library: base64 and hex, SHA-256, Ed25519 and RFC 3339. Bytes are
-- numbers, an instant is a number that grows with time.
pub record Library : Type 0 where
  pub base64_decode : String → Option (List ℕ)
  pub hex_encode : List ℕ → String
  pub sha256 : List ℕ → List ℕ
  pub ed25519_verify : List ℕ → List ℕ → List ℕ → Bool
  pub parse_time : String → Option ℕ

-- ed25519.PublicKeySize.
abbrev pub public_key_size : ℕ
public_key_size = 32

abbrev pub is_key : List ℕ → Bool
is_key pub_key = eqb (length pub_key) public_key_size

abbrev pub Check : Type 0
Check = Option Err

module _ (lib : Library) where
  pub verify_decoded : List ℕ → List ℕ → Option (List ℕ) → Err → Option Err
  verify_decoded key message none e = some e
  verify_decoded key message (some sig) e =
      if not (lib.ed25519_verify key message sig) then some e else none

  -- `none` is a nil error.
  unfoldable pub verify_manifest_signature : Manifest → List ℕ → Option Err
  unfolding verify_decoded
  verify_manifest_signature m key =
      if not (is_key key)
      then some no_public_key
      else verify_decoded key (canonical_payload m) (lib.base64_decode m.manifest_signature)
          invalid_manifest_signature

  -- The contents of the artifact's file stand for its path.
  unfoldable pub verify_artifact : List ℕ → ComponentUpdate → List ℕ → Option Err
  unfolding verify_decoded
  verify_artifact contents c key =
      if not (is_key key)
      then some no_public_key
      else if not (lib.hex_encode (lib.sha256 contents) == c.sha256)
      then some checksum_mismatch
      else verify_decoded key (lib.sha256 contents) (lib.base64_decode c.signature)
          invalid_artifact_signature

  pub compare_instants : Option ℕ → Option ℕ → Option Err
  compare_instants none b = some not_rfc3339
  compare_instants (some a) none = some not_rfc3339
  compare_instants (some a) (some b) = if ltb a b then some replayed else none

  unfoldable pub check_not_replayed : Manifest → String → Option Err
  unfolding compare_instants
  check_not_replayed m last_seen =
      if last_seen == ""
      then none
      else compare_instants (lib.parse_time m.released_at) (lib.parse_time last_seen)

unfoldable pub check_not_downgrade : String → String → Bool → Option Err
check_not_downgrade current target allow_downgrade =
    if current == ""
    then none
    else if allow_downgrade
    then none
    else if is_lt (compare_version (codes target) (codes current))
    then some (downgrade_blocked current target)
    else none

abbrev constrained : String → String → Bool
constrained required running = not (required == "") && not (running == "")

check_notes : Option ReleaseNotes → String → String → String → Option Err
check_notes none suite qrx adapter = none
check_notes (some rn) suite qrx adapter =
    if constrained rn.required_qrx_version qrx
      && not (satisfies (codes qrx) (codes rn.required_qrx_version))
    then some incompatible_update
    else if constrained rn.required_adapter_version adapter
        && not (satisfies (codes adapter) (codes rn.required_adapter_version))
    then some incompatible_update
    else if constrained rn.min_suite_version suite
        && is_lt (compare_version (codes suite) (codes rn.min_suite_version))
    then some incompatible_update
    else none

unfoldable pub check_compatibility : ComponentUpdate → String → String → String → Option Err
unfolding check_notes
check_compatibility c suite qrx adapter = check_notes c.release_notes suite qrx adapter
