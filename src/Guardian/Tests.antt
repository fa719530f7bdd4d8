-- ===== src/Guardian/Tests.antt =====
-- A concrete run of Guardian, and the theorem on its budget applied to it.
use qrx_node_suite.Prelude.{Bool, true, false, some, [], ◌∷◌, arith}
use qrx_node_suite.Guardian.{Config, Signals, Guardian, new, evaluate}
use qrx_node_suite.Guardian.Budget.{Run, start, tick, IsBudgeted, Run-IsBudgeted}

abbrev config : Config
config = record {
  degraded_after = 30;
  unhealthy_after = 120;
  offline_after = 300;
  max_auto_restarts = 3;
  restart_window = 900;
  min_restart_interval = 60;
}

abbrev signals : Bool → Signals
signals b = record {
  qrx_process_running = b;
  node_online = b;
  adapter_healthy = b;
  last_successful_poll = some 1000;
}

-- Healthy, then offline: one restart.
abbrev recovered : Guardian
recovered = (evaluate config (signals true) 1010 1010 new).1

abbrev restarted : Guardian
restarted = (evaluate config (signals false) 1020 1021 recovered).1

run : Run config 1021 (1021 ∷ []) restarted
unfolding evaluate
run =
    tick (signals false) 1020 1021
      (tick (signals true) 1010 1010 (start 1000) (omega arith) (omega arith)) (omega arith)
      (omega arith)

Run-IsBudgeted_example : IsBudgeted config (1021 ∷ [])
Run-IsBudgeted_example = Run-IsBudgeted config run
