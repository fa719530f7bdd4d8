-- ===== src/World.antt =====
-- What an update of one component reads and writes: the settings, the component's store, and the
-- update history of agent/storage/update_history.go.
--
-- A call of the database, of a controller or of the update source is one tick, and `fails` says which
-- ticks fail; the store has a schedule of its own. The audit log is there, and ignores its errors.
pub mod Ends
pub mod OnDisk
pub mod Turns
pub mod Yields
use qrx_node_suite.Prelude.{
  ℕ, ◌+◌, String, Bool, Option, none, some, List, ◌∷◌, if◌then◌else◌, length,
}
use qrx_node_suite.Errors.{Err, Result, ok, err, io_failure}
use qrx_node_suite.Exec.{Exec, done, fail, reads, modify, ◌>>=◌, ◌>>◌}
use qrx_node_suite.Policy.{Settings}
use qrx_node_suite.Store.{Store}

pub data UpdateStatus : Type 0 where
  status_started status_succeeded status_failed status_rolled_back status_blocked : UpdateStatus

-- A row, less its time and the wording of the error message; its id is its place in the history.
pub record HistoryRecord : Type 0 where
  pub component : String
  pub from_version : String
  pub to_version : String
  pub channel : String
  pub status : UpdateStatus
  pub rollback_used : Bool
  pub checksum : String
  pub manifest_version : ℕ

pub record World : Type 0 where
  pub settings : Settings
  pub store : Store
  pub history : List HistoryRecord
  -- How many audit events were recorded.
  pub audited : ℕ
  pub ticks : ℕ
  pub fails : ℕ → Bool

abbrev pub failing : World → Bool
failing w = w.fails w.ticks

abbrev pub tick : World → World
tick w = record w { ticks = w.ticks + 1 }

-- One call that has no effect on this state.
unfoldable pub outside : Exec World (Unit {0})
outside w = (if failing w then err io_failure else ok tt, tick w)

unfoldable pub on_store : {A : Type 0} → Exec Store A → Exec World A
on_store m w = let (r, s) = m w.store in (r, record w { store = s })

-- A read of the policy: the database's error, or what the accessor makes of the rows.
unfoldable pub asks : {A : Type 0} → (Settings → Result A) → Exec World A
asks f w = (if failing w then err io_failure else f w.settings, tick w)

-- A write of a setting.
unfoldable pub sets : (Settings → Settings) → Exec World (Unit {0})
unfolding outside ◌>>=◌
sets f = do outside; modify (λ w. record w { settings = f w.settings })

-- History.Insert, with the id of the new row.
unfoldable pub insert : HistoryRecord → Exec World ℕ
unfolding outside ◌>>=◌
insert rec = do
  outside
  modify (λ w. record w { history = rec ∷ w.history })
  reads (λ w. length w.history)

abbrev pub audit : Exec World (Unit {0})
audit = modify (λ w. record w { audited = w.audited + 1 })

-- A check that returns an error value.
unfoldable pub check : Option Err → Exec World (Unit {0})
check none = done tt
check (some e) = fail e

abbrev pub shown : Option String → String
shown none = ""
shown (some v) = v
