-- ===== src/Manifest/Tests.antt =====
-- Concrete manifests and a concrete library, and the theorems on manifests applied to them.
use qrx_node_suite.Prelude.{
  ℕ, ◌≡◌, refl, String, Bool, true, not, ◌&&◌, none, some, List, [], ◌∷◌, eqb, if◌then◌else◌, codes,
  length, ◌==◌, arith,
}
use qrx_node_suite.Manifest.{Manifest, ComponentUpdate, canonical_payload}
use qrx_node_suite.Manifest.Tokens.{NoNul}
use qrx_node_suite.Manifest.Payload.{IsNulFree, SameSigned, canonical_payload-SameSigned}
use qrx_node_suite.Manifest.Verify.{Library}

abbrev agent : String → ComponentUpdate
agent signature = record {
  version = "1.1.0";
  url = "u";
  sha256 = "h";
  signature = signature;
  release_notes = none;
}

abbrev release : String → Manifest
release signature = record {
  manifest_version = 1;
  channel = "stable";
  suite_version = "1.1.0";
  released_at = "t";
  components = ("agent", agent signature) ∷ [];
  manifest_signature = "sig";
}

all_set : List ℕ → Bool
all_set [] = true
all_set (c ∷ s) = not (eqb c 0) && all_set s

all_set-NoNul : (s : List ℕ) → all_set s ≡ true → NoNul s
unfolding all_set
all_set-NoNul [] h = tt
all_set-NoNul (c ∷ s) h = (ground arith, all_set-NoNul s (ground arith))

release-IsNulFree : (signature : String) → IsNulFree (release signature)
unfolding all_set
release-IsNulFree signature = record {
  channel = all_set-NoNul (codes "stable") refl;
  suite_version = all_set-NoNul (codes "1.1.0") refl;
  released_at = all_set-NoNul (codes "t") refl;
  components = (
    (
      all_set-NoNul (codes "agent") refl,
      all_set-NoNul (codes "1.1.0") refl,
      all_set-NoNul (codes "u") refl,
      all_set-NoNul (codes "h") refl,
      tt,
    ),
    tt,
  );
}

-- One signature text, which decodes to one byte; a signature of any message under any key.
abbrev library : Library
library = record {
  base64_decode = λ s. if s == "sig" then some (7 ∷ []) else none;
  hex_encode = λ s. "h";
  sha256 = λ s. s;
  ed25519_verify = λ key message sig. eqb (length sig) 1;
  parse_time = λ s. if s == "" then none else some (length (codes s));
}

abbrev key : List ℕ
key =
    1 ∷ 2 ∷ 3 ∷ 4 ∷ 5 ∷ 6 ∷ 7 ∷ 8 ∷ 9 ∷ 10 ∷ 11 ∷ 12 ∷ 13 ∷ 14 ∷ 15 ∷ 16 ∷ 17 ∷ 18 ∷ 19 ∷ 20 ∷ 21
    ∷ 22 ∷ 23 ∷ 24 ∷ 25 ∷ 26 ∷ 27 ∷ 28 ∷ 29 ∷ 30 ∷ 31 ∷ 32 ∷ []

canonical_payload-SameSigned_example : SameSigned (release "sig") (release "other")
unfolding canonical_payload
canonical_payload-SameSigned_example =
    canonical_payload-SameSigned (release "sig") (release "other") (release-IsNulFree "sig")
      (release-IsNulFree "other") refl
