-- ===== src/Updates/Check.antt =====
-- agent/updates/manager.go, Check and Plan: what an update would meet, with nothing written.
pub mod Settled
pub mod Agreement
mod Tests
use qrx_node_suite.Prelude.{
  String, Bool, true, false, not, ◌&&◌, ◌||◌, Option, none, some, is_some, List, [], ◌∷◌, codes,
  if◌then◌else◌, ◌==◌,
}
use qrx_node_suite.Errors.{Err, Result, ok, err}
use qrx_node_suite.Exec.{Exec, done, ◌>>=◌, ◌>>◌}
use qrx_node_suite.Policy.{channel, pinned}
use qrx_node_suite.Version.SemVer.{gt}
use qrx_node_suite.Manifest.{Manifest, ComponentUpdate, component as find_component}
use qrx_node_suite.Manifest.Verify.{check_compatibility}
use qrx_node_suite.Store.{read_current, read_previous}
use qrx_node_suite.World.{World, on_store, asks, shown}
use qrx_node_suite.Updates.{Controller}
use qrx_node_suite.Updates.Install.{
  Manager, fetch_verified_manifest, controller_of, matrix_check, pin_allows,
}

pub data BlockReason : Type 0 where
  pinned_to : String → BlockReason
  refused : Err → BlockReason

pub record CheckResult : Type 0 where
  pub component : String
  pub channel : String
  pub current : String
  pub latest : String
  pub update_available : Bool
  pub pinned : Bool
  pub compatible : Bool
  pub blocked : Bool
  pub block_reason : Option BlockReason
  pub restart_required : Bool
  pub rollback_available : Bool
  pub check_error : Option Err

-- The result as a value, its error too.
pub settled : {S A : Type 0} → Exec S A → Exec S (Result A)
settled m s = let (r, t) = m s in (ok r, t)

-- The first reason to block is the one that is kept.
abbrev pub block : Option Err → CheckResult → CheckResult
block none r = r
block (some e) r =
    if r.blocked then r else record r { blocked = true; block_reason = some (refused e) }

abbrev pub pin_block : Option String → String → CheckResult → CheckResult
pin_block none version r = r
pin_block (some p) version r =
    if version == p then r else record r { blocked = true; block_reason = some (pinned_to p) }

abbrev pub ranges : Option Err → CheckResult → CheckResult
ranges none r = record r { compatible = true }
ranges (some e) r = block (some e) r

abbrev pub matrix : Option Err → CheckResult → CheckResult
matrix none r = r
matrix (some e) r = block (some e) (record r { compatible = false })

abbrev pub available : String → CheckResult → CheckResult
available version r =
    if r.current == "" || gt (codes version) (codes r.current)
    then record r { update_available = true }
    else r

module _ (m : Manager) where
  -- What is known without the source.
  pub local :
      String → String → Option String → Option String → Controller → Option String → CheckResult
  local component ch cur prev ctrl pin = record {
    component = component;
    channel = ch;
    current = shown cur;
    latest = "";
    update_available = false;
    pinned = is_some pin;
    compatible = false;
    blocked = false;
    block_reason = none;
    restart_required = ctrl.requires_restart;
    rollback_available = is_some prev;
    check_error = none;
  }

  pub judge : Controller → Option String → ComponentUpdate → CheckResult → CheckResult
  judge ctrl pin c r = matrix (matrix_check m m.matrix ctrl.adapter_name c.version) (
      ranges
        (check_compatibility c m.current_versions.suite_version m.current_versions.qrx_core_version
          m.current_versions.adapter_version)
        (available c.version (pin_block pin c.version (record r { latest = c.version }))))

  pub answered : Controller → Option String → CheckResult → Result Manifest → CheckResult
  unfolding judge
  answered ctrl pin r (err e) = record r { check_error = some e }
  answered ctrl pin r (ok mf) = elim (find_component r.component mf.components) [
    | none ↦ r
    | some c ↦ judge ctrl pin c r
  ]

  pub check_component : String → Exec World CheckResult
  unfolding ◌>>=◌
  check_component component = do
    ctrl ← controller_of m component
    ch ← asks (channel component)
    cur ← on_store read_current
    prev ← on_store read_previous
    pin ← asks (pinned component)
    mf ← settled (fetch_verified_manifest m ch)
    done (answered ctrl pin (local component ch cur prev ctrl pin) mf)

-- The checks of several components, on whatever they share; the first error ends the call.
module _ {W : Type 0} (check : String → Exec W CheckResult) where
  unfoldable pub plan : List String → Exec W (List CheckResult)
  unfolding ◌>>=◌
  plan [] = done []
  plan (c ∷ names) = let rest = plan names in (do r ← check c; rs ← rest; done (r ∷ rs))
