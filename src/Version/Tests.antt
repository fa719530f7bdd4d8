-- ===== src/Version/Tests.antt =====
-- Concrete versions, a concrete matrix and profile, and the theorems on versions applied to them.
use qrx_node_suite.Prelude.{ℕ, ◌≡◌, ◌↔◌, some, List, [], ◌∷◌, codes}
use qrx_node_suite.Version.SemVer.{SemVer, match_sem_ver}
use qrx_node_suite.Version.SemVer.Scanned.{Parts, IsSpelled, spell, value}
use qrx_node_suite.Version.SemVer.Grammar.{match_sem_ver_iff}
use qrx_node_suite.Version.Matrix.{Matrix, supported, experimental, best_adapter_for}
use qrx_node_suite.Version.Matrix.Best.{IsBest, best_adapter_for-IsBest}
use qrx_node_suite.Version.Profile.{CompatibilityProfile, compatible, incompatible, unknown}

abbrev version : ℕ → ℕ → ℕ → List ℕ → SemVer
version a b c p = record { major = a; minor = b; patch = c; prerelease = p }

match_sem_ver_iff_example :
    (match_sem_ver (codes "1.2.3-rc.1+7") ≡ some (version 1 2 3 (codes "rc.1"))) ↔ (
      (p : Parts) × IsSpelled p
      × (spell p ≡ codes "1.2.3-rc.1+7")
      × (value p ≡ version 1 2 3 (codes "rc.1")))
match_sem_ver_iff_example = match_sem_ver_iff (codes "1.2.3-rc.1+7") (version 1 2 3 (codes "rc.1"))

abbrev matrix : Matrix
matrix = record {
  matrix_version = 1;
  updated_at = "";
  entries =
      record {
        qrx_core_version = "0.0.7";
        adapter_name = "legacy006";
        adapter_version_range = "";
        dashboard_version_range = "*";
        status = experimental;
        notes = "";
      }
      ∷ record {
        qrx_core_version = "0.0.7";
        adapter_name = "qrx007";
        adapter_version_range = "^1.0.0";
        dashboard_version_range = "*";
        status = supported;
        notes = "";
      }
      ∷ [];
}

best_adapter_for-IsBest_example : IsBest matrix "0.0.7" (best_adapter_for matrix "0.0.7")
best_adapter_for-IsBest_example = best_adapter_for-IsBest matrix "0.0.7"

abbrev profile : CompatibilityProfile
profile = record {
  profile_version = 1;
  qrx_core_version = "0.0.7";
  feature_flags = [];
  required_adapter = "qrx007";
  core_version_switch_safety = record {
    blockchain_data = compatible;
    configuration = unknown;
    wallet = incompatible;
    adapter = compatible;
    network = compatible;
  };
}
