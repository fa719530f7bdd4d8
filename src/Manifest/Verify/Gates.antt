-- ===== src/Manifest/Verify/Gates.antt =====
-- agent/updates/manifest/verify.go: exactly what each gate lets through.
use qrx_node_suite.Prelude.{
  ℕ, ◌≡◌, ◌≢◌, ◌↔◌, ◌⊎◌, ◌≤◌, refl, sym, ◌∙◌, Bool-cases, String, Bool, true, false, not, Option,
  none, some, List, eqb_iff, ltb, if◌then◌else◌, codes, ◌==◌, eq_iff, length, arith, inl, inr,
}
use qrx_node_suite.Errors.{Err, invalid_artifact_signature, invalid_manifest_signature, replayed}
use qrx_node_suite.Version.SemVer.{compare_version, is_lt}
use qrx_node_suite.Manifest.{Manifest, ComponentUpdate, canonical_payload}
use qrx_node_suite.Manifest.Verify.{
  Library, verify_manifest_signature, verify_artifact, is_key, verify_decoded, compare_instants,
  check_not_replayed, check_not_downgrade,
}

false_ne_true : false ≢ true
false_ne_true h = cc

module _ (lib : Library) where
  -- A base64 text of a signature of the message under the key.
  abbrev pub IsSignature : List ℕ → List ℕ → String → Type 0
  IsSignature key message text =
      (sig : List ℕ) × (lib.base64_decode text ≡ some sig)
      × (lib.ed25519_verify key message sig ≡ true)

  decoded_iff :
      (key message : List ℕ) (o : Option (List ℕ)) (e : Err)
      → (verify_decoded lib key message o e ≡ none)
        ↔ ((sig : List ℕ) × (o ≡ some sig) × (lib.ed25519_verify key message sig ≡ true))
  unfolding verify_decoded
  decoded_iff key message none e = (λ h. cc, λ (sig, p, q). cc)
  decoded_iff key message (some s) e =
      (λ h. (s, refl, ground arith), λ (sig, p, q). backward sig p q)
    where
      backward :
          (sig : List ℕ)
          → some s ≡ some sig
          → lib.ed25519_verify key message sig ≡ true
          → (if not (lib.ed25519_verify key message s) then some e else none) ≡ none
      backward sig p q = ground arith

  -- An artifact is accepted exactly if the key has 32 bytes, the file's SHA-256 is the one that the
  -- manifest declares, and the component's signature is one of that digest under the key.
  pub verify_artifact_iff :
      (contents : List ℕ) (c : ComponentUpdate) (key : List ℕ)
      → (verify_artifact lib contents c key ≡ none) ↔ (
          (length key ≡ 32)
          × (lib.hex_encode (lib.sha256 contents) ≡ c.sha256)
          × IsSignature key (lib.sha256 contents) c.signature)
  unfolding verify_artifact
  verify_artifact_iff contents c key =
      let d =
        decoded_iff key (lib.sha256 contents) (lib.base64_decode c.signature)
          invalid_artifact_signature in
      let q = eq_iff (lib.hex_encode (lib.sha256 contents)) c.sha256 in
      elim (Bool-cases (is_key key)) [
        | inl k ↦ elim (Bool-cases (lib.hex_encode (lib.sha256 contents) == c.sha256)) [
          | inl e ↦
              rw (k, e) (λ h. ((eqb_iff (length key) 32).0 k, q.0 e, d.0 h), λ (l, m, n). d.1 n)
          | inr e ↦ rw (k, e) (λ h. cc, λ (l, m, n). absurd (false_ne_true (sym e ∙ q.1 m)))
        ]
        | inr k ↦
            rw k
              (λ h. cc, λ (l, m, n). absurd (false_ne_true (sym k ∙ (eqb_iff (length key) 32).1 l)))
      ]

  -- A manifest is accepted exactly if the key has 32 bytes and its signature is one of its canonical
  -- payload under the key.
  pub verify_manifest_signature_iff :
      (m : Manifest) (key : List ℕ)
      → (verify_manifest_signature lib m key ≡ none)
        ↔ ((length key ≡ 32) × IsSignature key (canonical_payload m) m.manifest_signature)
  unfolding verify_manifest_signature
  verify_manifest_signature_iff m key =
      let d =
        decoded_iff key (canonical_payload m) (lib.base64_decode m.manifest_signature)
          invalid_manifest_signature in
      elim (Bool-cases (is_key key)) [
        | inl k ↦ rw k (λ h. ((eqb_iff (length key) 32).0 k, d.0 h), λ (l, n). d.1 n)
        | inr k ↦
            rw k (λ h. cc, λ (l, n). absurd (false_ne_true (sym k ∙ (eqb_iff (length key) 32).1 l)))
      ]

  instants_iff :
      (x y : Option ℕ)
      → (compare_instants lib x y ≡ none)
        ↔ ((a : ℕ) × (b : ℕ) × (x ≡ some a) × (y ≡ some b) × (b ≤ a))
  unfolding compare_instants
  instants_iff none y = (λ h. cc, λ (a, b, p, q, r). cc)
  instants_iff (some x) none = (λ h. cc, λ (a, b, p, q, r). cc)
  instants_iff (some x) (some y) =
      (λ h. (x, y, refl, refl, ground arith), λ (a, b, p, q, r). backward a b p q r)
    where
      backward :
          (a b : ℕ)
          → some x ≡ some a
          → some y ≡ some b
          → b ≤ a
          → (if ltb x y then some replayed else none) ≡ none
      backward a b p q r = ground arith

  -- A manifest is let through by the replay check exactly if nothing was seen on the channel before
  -- or both instants parse and the manifest's is not the earlier one.
  pub check_not_replayed_iff :
      (m : Manifest) (last_seen : String)
      → (check_not_replayed lib m last_seen ≡ none) ↔ (
          (last_seen ≡ "")
          ⊎ ((a : ℕ) × (b : ℕ) × (lib.parse_time m.released_at ≡ some a)
              × (lib.parse_time last_seen ≡ some b)
              × (b ≤ a)))
  unfolding check_not_replayed
  check_not_replayed_iff m last_seen =
      let d = instants_iff (lib.parse_time m.released_at) (lib.parse_time last_seen) in
      elim (Bool-cases (last_seen == "")) [
        | inl e ↦ rw e (λ h. inl ((eq_iff last_seen "").0 e), λ h. refl)
        | inr e ↦ rw e (
          λ h. inr (d.0 h),
          λ h. elim h [
            | inl p ↦ absurd (false_ne_true (sym e ∙ (eq_iff last_seen "").1 p))
            | inr p ↦ d.1 p
          ],
        )
      ]

-- An install is refused as a downgrade exactly if a version is installed, no downgrade was allowed
-- and the target compares below it: reinstalling the same version is let through.
pub check_not_downgrade_iff :
    (current target : String) (allowed : Bool)
    → (check_not_downgrade current target allowed ≡ none) ↔ (
        (current ≡ "")
        ⊎ (allowed ≡ true)
        ⊎ (is_lt (compare_version (codes target) (codes current)) ≡ false))
unfolding check_not_downgrade
check_not_downgrade_iff current target allowed = ground (arith, eq_iff current "")
