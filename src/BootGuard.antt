-- ===== src/BootGuard.antt =====
-- agent/updates/bootguard.go: the forced rollback of a self-update that keeps crashing.
--
-- The boot counter is kept as
-- the number that strconv.Itoa wrote; a row that holds anything else reads as 0, as strconv.Atoi's
-- ignored error does.
pub mod CrashLoop
pub mod Restore
mod Tests
use qrx_node_suite.Prelude.{
  ℕ, ◌+◌, String, Bool, true, false, Option, none, some, List, [], ◌∷◌, leb, eqb, if◌then◌else◌,
}
use qrx_node_suite.Errors.{Err, Result, ok, err, io_failure, bad_json}
use qrx_node_suite.Exec.{Exec, as_error}
use qrx_node_suite.Policy.{
  Settings, Setting, Key, text, number, window, pending, PendingSelfUpdate, boot_attempts,
  pending_self_update, get, set, delete,
}
use qrx_node_suite.World.{
  World, HistoryRecord, UpdateStatus, status_failed, status_rolled_back, failing, tick,
}
use qrx_node_suite.Store.{Store, rollback_to_previous}

-- The three results of CheckAndRecordAttempt.
pub record Outcome : Type 0 where
  pub rolled_back : Bool
  pub attempts : ℕ
  pub error : Option Err

pub effective_max_attempts : ℕ → ℕ
effective_max_attempts n = if eqb n 0 then 3 else n

-- The keys under the prefix "pending_self_update.".
pub pending_components : Settings → List String
pending_components [] = []
pending_components ((pending_self_update c, v) ∷ s) = c ∷ pending_components s
pending_components ((_, v) ∷ s) = pending_components s

abbrev pub as_number : Option Setting → ℕ
as_number (some (number n)) = n
as_number _ = 0

-- recordAttempt: the count, and the error of the read or of the write.
pub record_attempt : String → World → (ℕ × Option Err) × World
record_attempt component w =
    let u = tick w in
    let n = as_number (get (boot_attempts component) w.settings) + 1 in
    let v = tick u in
    if failing w
    then ((0, some io_failure), u)
    else if failing u
    then ((n, some io_failure), v)
    else ((n, none), record v { settings = set (boot_attempts component) (number n) w.settings })

abbrev pub no_pending : PendingSelfUpdate
no_pending = record {
  component = "";
  from_version = "";
  to_version = "";
  channel = "";
  history_id = 0;
}

abbrev pub as_pending : Option Setting → Result PendingSelfUpdate
as_pending none = ok no_pending
as_pending (some (pending p)) = ok p
as_pending (some _) = err bad_json

abbrev pub reverted : String → PendingSelfUpdate → UpdateStatus → HistoryRecord
reverted component p status = record {
  component = component;
  from_version = p.to_version;
  to_version = p.from_version;
  channel = p.channel;
  status = status;
  rollback_used = true;
  checksum = "";
  manifest_version = 0;
}

-- History.Insert, its error kept in `err`, then Audit.Record.
pub report : HistoryRecord → World → Option Err × World
report rec w =
    let u = record w { ticks = w.ticks + 1; audited = w.audited + 1 } in
    if failing w then (some io_failure, u) else (none, record u { history = rec ∷ w.history })

-- The two Deletes; the error of the first is kept where there is none before it, that of the
-- second is dropped.
pub clear : String → Option Err → World → Option Err × World
clear component e w =
    let u = tick w in
    let s = if failing w then w.settings else delete (pending_self_update component) w.settings in
    let t = if failing u then s else delete (boot_attempts component) s in
    let d = if failing w then some io_failure else none in
    (elim e [ none ↦ d | some x ↦ some x ], record (tick u) { settings = t })

-- After the forced rollback.
pub conclude : String → ℕ → PendingSelfUpdate → Result (Unit {0}) × World → Outcome × World
unfolding report clear
conclude component n p (err x, w) =
    let (e, u) = report (reverted component p status_failed) w in
    (record { rolled_back = false; attempts = n; error = e }, u)
conclude component n p (ok a, w) =
    let (e, u) = report (reverted component p status_rolled_back) w in
    let (f, v) = clear component e u in (record { rolled_back = true; attempts = n; error = f }, v)

abbrev pub roll_back : World → Result (Unit {0}) × World
roll_back w = let (r, s) = rollback_to_previous w.store in (r, record w { store = s })

-- Past the limit: the pending marker is read, then the store is rolled back.
pub force : String → ℕ → World → Outcome × World
unfolding conclude
force component n w =
    let u = tick w in
    if failing w
    then (record { rolled_back = false; attempts = n; error = some io_failure }, u)
    else elim (as_pending (get (pending_self_update component) w.settings)) [
      | err e ↦ (record { rolled_back = false; attempts = n; error = some e }, u)
      | ok p ↦ conclude component n p (roll_back u)
    ]

abbrev pub decide : ℕ → String → (ℕ × Option Err) × World → Outcome × World
decide max component ((n, some e), w) =
    (record { rolled_back = false; attempts = n; error = some e }, w)
decide max component ((n, none), w) =
    let forced = force component n w in
    if leb n (effective_max_attempts max)
    then (record { rolled_back = false; attempts = n; error = none }, w)
    else forced

pub check_and_record_attempt : ℕ → String → World → Outcome × World
unfolding record_attempt force effective_max_attempts
check_and_record_attempt max component w = decide max component (record_attempt component w)
