-- ===== src/Adapters/Tests.antt =====
-- A concrete registry of two adapters, and the theorems applied to it.
use qrx_node_suite.Prelude.{◌≡◌, ◌⊎◌, true, false, [], ◌∷◌}
use qrx_node_suite.Errors.{Err, ok, err}
use qrx_node_suite.Adapters.{Registry, activate}
use qrx_node_suite.Adapters.Frames.{pointers}
use qrx_node_suite.Adapters.Activation.{Switched, activate_outcomes}

abbrev registry : Registry
registry = record {
  matrix = record { matrix_version = 1; updated_at = ""; entries = [] };
  installed = "mock" ∷ "qrx007" ∷ [];
  version_of = λ name. "1.0.0";
  disabled = "qrx007" ∷ [];
  active = "mock";
  previous = "qrx007";
  calls = [];
  fails = λ n. false;
}

activate_outcomes_example :
    (((activate "qrx007" true registry).0 ≡ ok tt)
      × Switched "qrx007" true (pointers registry) (pointers (activate "qrx007" true registry).1))
    ⊎ ((e : Err) × ((activate "qrx007" true registry).0 ≡ err e)
        × (pointers (activate "qrx007" true registry).1 ≡ pointers registry))
activate_outcomes_example = activate_outcomes "qrx007" true registry
