-- ===== src/Guardian.antt =====
-- agent/guardian/guardian.go: the health state machine and its restart budget.
--
-- A time is a number of nanoseconds; the zero time.Time is `none`. `a.Sub(b) >= d` is written
-- `b + d ≤ a`. The two calls of time.Now() in one tick are two arguments. Whether the restart function is called is a result; the
-- transition callback is told of a change and changes nothing here.
pub mod Budget
pub mod Healthy
mod Tests
use qrx_node_suite.Prelude.{
  ℕ, ◌+◌, Bool, true, false, not, ◌&&◌, ◌||◌, Option, none, some, List, [], ◌∷◌, ◌++◌, ltb, leb,
  if◌then◌else◌, length,
}

pub data HealthState : Type 0 where
  health_healthy health_degraded health_unhealthy health_offline : HealthState

abbrev pub same_health : HealthState → HealthState → Bool
same_health health_healthy health_healthy = true
same_health health_degraded health_degraded = true
same_health health_unhealthy health_unhealthy = true
same_health health_offline health_offline = true
same_health _ _ = false

pub record Signals : Type 0 where
  pub qrx_process_running : Bool
  pub node_online : Bool
  pub adapter_healthy : Bool
  pub last_successful_poll : Option ℕ

pub record Config : Type 0 where
  pub degraded_after : ℕ
  pub unhealthy_after : ℕ
  pub offline_after : ℕ
  pub max_auto_restarts : ℕ
  pub restart_window : ℕ
  pub min_restart_interval : ℕ

pub record Guardian : Type 0 where
  pub state : HealthState
  pub restart_times : List ℕ
  pub last_restart : Option ℕ

-- New.
abbrev pub new : Guardian
new = record { state = health_offline; restart_times = []; last_restart = none }

-- `since >= d`: without a poll, `since` is OfflineAfter.
abbrev pub stale : Signals → Config → ℕ → ℕ → Bool
stale s c now d = elim (s.last_successful_poll) [
  | none ↦ leb d c.offline_after
  | some t ↦ leb (t + d) now
]

pub classify : Signals → Config → ℕ → HealthState
classify s c now =
    if not s.qrx_process_running
    then health_offline
    else if stale s c now c.offline_after || not s.node_online
    then health_offline
    else if stale s c now c.unhealthy_after || not s.adapter_healthy
    then health_unhealthy
    else if stale s c now c.degraded_after
    then health_degraded
    else health_healthy

-- `t.After(cutoff)`.
abbrev pub after_cutoff : ℕ → ℕ → ℕ → Bool
after_cutoff w now t = ltb now (t + w)

pub keep : ℕ → ℕ → List ℕ → List ℕ
keep w now [] = []
keep w now (t ∷ ts) = let rest = keep w now ts in if after_cutoff w now t then t ∷ rest else rest

abbrev pub cooling_down : Config → ℕ → Option ℕ → Bool
cooling_down c now none = false
cooling_down c now (some t) = ltb now (t + c.min_restart_interval)

-- attemptRestart; the flag says whether the restart function is called.
pub attempt_restart : Config → ℕ → Guardian → Bool × Guardian
unfolding keep
attempt_restart c now g =
    let kept = keep c.restart_window now g.restart_times in
    if cooling_down c now g.last_restart
    then (false, g)
    else if leb c.max_auto_restarts (length kept)
    then (false, record g { restart_times = kept })
    else (true, record g { restart_times = kept ++ (now ∷ []); last_restart = some now })

abbrev pub wants_restart : HealthState → Bool
wants_restart health_unhealthy = true
wants_restart health_offline = true
wants_restart _ = false

-- Evaluate; the flag says whether a restart is requested.
unfoldable pub evaluate : Config → Signals → ℕ → ℕ → Guardian → Bool × Guardian
unfolding classify attempt_restart
evaluate c s now later g =
    let new_state = classify s c now in
    let h = record g { state = new_state } in
    let attempt = attempt_restart c later h in
    if not (same_health g.state new_state) && wants_restart new_state then attempt else (false, h)

-- RestartAttemptsInWindow.
pub restart_attempts_in_window : Guardian → ℕ
restart_attempts_in_window g = length g.restart_times
