-- ===== src/Policy/Tests.antt =====
-- A concrete policy, and the theorems on it applied to it.
use qrx_node_suite.Prelude.{ℕ, ◌+◌, ◌*◌, ◌<◌, ◌≡◌, ◌↔◌, true, arith, [], ◌∷◌}
use qrx_node_suite.Policy.{Settings, ScheduledWindow, in_window, pin, text}
use qrx_node_suite.Policy.Window.{opens, closes, forward, in_window_iff}

abbrev rows : Settings
rows = (pin "agent", text "1.0.0") ∷ []

-- Saturday 23:00 to 01:00.
abbrev night : ScheduledWindow
night = record { weekday = 6; start_hour = 23; start_minute = 0; end_hour = 1; end_minute = 0 }

in_window_iff_example : (in_window night 0 0 30 ≡ true) ↔ (
    (◌≡◌ {A = ℕ} 0 6)
    × (forward (opens night) (0 * 60 + 30) < forward (opens night) (closes night)))
in_window_iff_example = in_window_iff night 0 0 30 (omega arith) (omega arith) (omega arith)
