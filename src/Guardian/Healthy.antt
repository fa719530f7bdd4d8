-- ===== src/Guardian/Healthy.antt =====
-- agent/guardian/guardian.go: the signals behind a healthy state.
use qrx_node_suite.Prelude.{ℕ, ◌≡◌, sym, ◌∙◌, true, arith}
use qrx_node_suite.Guardian.{
  health_healthy, Guardian, Signals, Config, classify, attempt_restart, evaluate,
}

healthy_signals :
    (c : Config) (s : Signals) (now : ℕ)
    → classify s c now ≡ health_healthy
    → (s.qrx_process_running ≡ true) × (s.node_online ≡ true) × (s.adapter_healthy ≡ true)
unfolding classify
healthy_signals c s now e = ground arith

attempt_restart-state :
    (c : Config) (now : ℕ) (g : Guardian) → (attempt_restart c now g).1.state ≡ g.state
unfolding attempt_restart
attempt_restart-state c now g = ground arith

evaluate-state :
    (c : Config) (s : Signals) (now later : ℕ) (g : Guardian)
    → (evaluate c s now later g).1.state ≡ classify s c now
unfolding evaluate
evaluate-state c s now later g =
    let r = attempt_restart-state c later (record g { state = classify s c now }) in ground arith

-- Where Guardian ends a tick healthy, each of its signals was given.
pub evaluate_healthy :
    (c : Config) (s : Signals) (now later : ℕ) (g : Guardian)
    → (evaluate c s now later g).1.state ≡ health_healthy
    → (s.qrx_process_running ≡ true) × (s.node_online ≡ true) × (s.adapter_healthy ≡ true)
evaluate_healthy c s now later g e =
    healthy_signals c s now (sym (evaluate-state c s now later g) ∙ e)
