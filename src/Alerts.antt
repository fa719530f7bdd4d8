-- ===== src/Alerts.antt =====
-- agent/alerts/alerts.go over agent/storage/alerts.go: the alert engine and its table.
--
-- The table lists the newest row first. A call of the database is one tick, and `fails` says which
-- ticks fail. A time is a number of nanoseconds. The rules and the snapshot that they look at are
-- arbitrary: the float tests of the default rules are not modelled.
pub mod Open
mod Tests
use qrx_node_suite.Prelude.{
  ℕ, ◌+◌, String, Bool, true, false, not, ◌&&◌, ◌||◌, Option, none, some, List, [], ◌∷◌, ◌++◌,
  if◌then◌else◌, ◌==◌,
}
use qrx_node_suite.Errors.{Err, Result, ok, err, io_failure}
use qrx_node_suite.Exec.{Exec, done, fail, reads, modify, ◌>>=◌, ◌>>◌}

pub data AlertSeverity : Type 0 where
  severity_info severity_warning severity_critical : AlertSeverity

pub record Alert : Type 0 where
  pub id : ℕ
  pub rule_id : String
  pub severity : AlertSeverity
  pub title : String
  pub message : String
  pub created_at : ℕ
  pub resolved : Bool
  pub resolved_at : Option ℕ

pub record Rule (S : Type 0) : Type 0 where
  pub id : String
  pub severity : AlertSeverity
  pub title : String
  pub evaluate : S → Bool × String

pub data Event : Type 0 where
  alert_created alert_resolved : ℕ → Alert → Event

-- The table, the events published so far, newest first, and the database's failures.
pub record World : Type 0 where
  pub rows : List Alert
  pub last_id : ℕ
  pub published : List Event
  pub ticks : ℕ
  pub fails : ℕ → Bool

pub db_call : Exec World (Unit {0})
db_call w = (if w.fails w.ticks then err io_failure else ok tt, record w { ticks = w.ticks + 1 })

-- `rule_id = ? AND resolved = 0`.
abbrev pub is_open : String → Alert → Bool
is_open rule a = a.rule_id == rule && not a.resolved

-- The newest open row of the rule. The query orders by the text of the creation time, which decides
-- among several open rows only, and the engine never opens a second one.
pub find_open : String → List Alert → Option Alert
find_open rule [] = none
find_open rule (a ∷ rows) =
    let rest = find_open rule rows in if is_open rule a then some a else rest

pub open_by_rule : String → Exec World (Option Alert)
unfolding db_call find_open ◌>>=◌
open_by_rule rule = do db_call; reads (λ w. find_open rule w.rows)

abbrev pub insert_row : Alert → World → World
insert_row a w = record w {
  rows = record a { id = w.last_id + 1 } ∷ w.rows;
  last_id = w.last_id + 1;
}

-- The insert, then LastInsertId. The engine always sets a creation time, so the default for a
-- missing one is not modelled, nor is a time that does not parse back.
pub create : Alert → Exec World Alert
unfolding db_call ◌>>=◌
create a = do db_call; modify (insert_row a); db_call; reads (λ w. record a { id = w.last_id })

pub resolve_rows : String → ℕ → List Alert → List Alert
resolve_rows rule now [] = []
resolve_rows rule now (a ∷ rows) =
    let rest = resolve_rows rule now rows in
    if is_open rule a then record a { resolved = true; resolved_at = some now } ∷ rest else a ∷ rest

pub resolve_by_rule : String → ℕ → Exec World (Unit {0})
unfolding db_call resolve_rows ◌>>=◌
resolve_by_rule rule now = do
  db_call
  modify (λ w. record w { rows = resolve_rows rule now w.rows })

pub publish : Event → Exec World (Unit {0})
publish e = modify (λ w. record w { published = e ∷ w.published })

abbrev pub opened : {S : Type 0} → Rule S → String → ℕ → Alert
opened rule message now = record {
  id = 0;
  rule_id = rule.id;
  severity = rule.severity;
  title = rule.title;
  message = message;
  created_at = now;
  resolved = false;
  resolved_at = none;
}

-- The switch of Evaluate's loop.
pub transition : {S : Type 0} → Rule S → ℕ → Bool × String → Option Alert → Exec World (Unit {0})
unfolding create resolve_by_rule publish ◌>>=◌
transition rule now (true, message) none = do
  created ← create (opened rule message now)
  publish (alert_created now created)
transition rule now (false, message) (some existing) = do
  resolve_by_rule rule.id now
  publish (alert_resolved now (record existing { resolved = true; resolved_at = some now }))
transition rule now (true, message) (some existing) = done tt
transition rule now (false, message) none = done tt

pub evaluate_rule : {S : Type 0} → Rule S → S → ℕ → Exec World (Unit {0})
unfolding open_by_rule transition ◌>>=◌
evaluate_rule rule s now = do
  existing ← open_by_rule rule.id
  transition rule now (rule.evaluate s) existing

pub evaluate : {S : Type 0} → List (Rule S) → S → ℕ → Exec World (Unit {0})
unfolding evaluate_rule ◌>>=◌
evaluate [] s now = done tt
evaluate (r ∷ rules) s now = evaluate_rule r s now >> evaluate rules s now

-- AddRule.
pub add_rule : {S : Type 0} → Rule S → List (Rule S) → List (Rule S)
add_rule r rules = rules ++ (r ∷ [])
