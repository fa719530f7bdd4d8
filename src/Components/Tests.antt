-- ===== src/Components/Tests.antt =====
-- A dashboard archive with an entry that escapes, a host that runs an adapter's update, and the
-- theorems applied to them.
use qrx_node_suite.Prelude.{
  ◌≡◌, refl, ap, sym, ◌∙◌, inl, inr, eq_iff, codes, String, Bool, true, false, some, none, [], ◌∷◌,
  ◌==◌, if◌then◌else◌,
}
use qrx_node_suite.Exec.{◌>>=◌}
use qrx_node_suite.Errors.{ok, err, escapes_directory}
use qrx_node_suite.Adapters.{active_name}
use qrx_node_suite.Store.{read_current, is_valid_component}
use qrx_node_suite.Components.{
  agent_health_check, on_store, on_registry, Host, AdapterComponent, adapter_health_check,
}
use qrx_node_suite.Components.Extract.{
  call, Paths, Files, Archive, entry, regular, directory, finished, extract,
}
use qrx_node_suite.Components.Inside.{Below, InsideDir, ParentsStay, CallsInside, extract-Inside}
use qrx_node_suite.Components.Healthy.{Healthy, adapter_health_check-Healthy}

abbrev paths : Paths
paths = record {
  clean = λ s. if s == "/srv/d/../x" then "/srv/x" else s;
  join = λ dir name. if name == "../x" then "/srv/d/../x" else "/srv/d/index.html";
  parent = λ s. if s == "/srv/d/index.html" then "/srv/d" else if s == "/srv/d" then "/srv" else s;
}

abbrev files : Files
files = record { calls = []; fails = λ n. false }

abbrev archive : Archive
archive = entry regular "index.html" (entry directory "../x" finished)

extract_escape : (extract paths "/srv/d" archive files).0 ≡ err (escapes_directory "../x")
unfolding extract ◌>>=◌ call
extract_escape = refl

parents_stay : ParentsStay paths "/srv/d"
parents_stay x b = which (paths.clean x) b
  where
    below :
        (c : Bool) (y : String)
        → (y == "/srv/d") ≡ c
        → Below paths "/srv/d" y
        → InsideDir paths "/srv/d" (if c then "/srv" else y)
    below true y e (rest, q) = let top = sym (ap codes ((eq_iff y "/srv/d").0 e)) ∙ q in cc
    below false y e b = inr b

    file :
        (c : Bool) (y : String)
        → Below paths "/srv/d" y
        → InsideDir paths "/srv/d" (if c then "/srv/d" else if y == "/srv/d" then "/srv" else y)
    file true y b = inl refl
    file false y b = below (y == "/srv/d") y refl b

    which : (y : String) → Below paths "/srv/d" y → InsideDir paths "/srv/d" (paths.parent y)
    which y b = file (y == "/srv/d/index.html") y b

extract-Inside_example : CallsInside paths "/srv/d" (extract paths "/srv/d" archive files).1.calls
extract-Inside_example = extract-Inside paths "/srv/d" parents_stay archive files tt

abbrev host : Host
host = record {
  store = record {
    component = "adapter_qrx007";
    disk = record {
      current = some "1.1.0";
      previous = some "1.0.0";
      staged = none;
      releases = "1.1.0" ∷ "1.0.0" ∷ [];
      unlink_fails = λ n. false;
    };
    ticks = 0;
    fails = λ n. false;
  };
  registry = record {
    matrix = record { matrix_version = 1; updated_at = ""; entries = [] };
    installed = "qrx007" ∷ [];
    version_of = λ name. "1.1.0";
    disabled = [];
    active = "qrx007";
    previous = "";
    calls = [];
    fails = λ n. false;
  };
}

abbrev component : AdapterComponent
component = record {
  running_version = "1.1.0";
  adapter_name = "qrx007";
  matrix = record { matrix_version = 1; updated_at = ""; entries = [] };
  qrx_core_version = "";
}

passes : (adapter_health_check component host).0 ≡ ok tt
unfolding adapter_health_check ◌>>=◌ on_store agent_health_check read_current is_valid_component
    active_name on_registry qrx_node_suite.Adapters.call
passes = refl

adapter_health_check-Healthy_example : Healthy component host
adapter_health_check-Healthy_example = adapter_health_check-Healthy component host passes
