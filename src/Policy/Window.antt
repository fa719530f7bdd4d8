-- ===== src/Policy/Window.antt =====
-- agent/updates/policy.go, ScheduledWindow: which minutes of the week a window holds.
use qrx_node_suite.Prelude.{ℕ, ◌+◌, ◌*◌, ◌<◌, ◌≡◌, ◌↔◌, ◌-◌, ◌%◌, true, arith}
use qrx_node_suite.Policy.{ScheduledWindow, in_window}

abbrev pub opens : ScheduledWindow → ℕ
opens w = w.start_hour * 60 + w.start_minute

abbrev pub closes : ScheduledWindow → ℕ
closes w = w.end_hour * 60 + w.end_minute

-- The minutes from one time of the day forward to another, past midnight where that is later.
abbrev pub forward : ℕ → ℕ → ℕ
forward from to = (to + (1440 - from)) % 1440

-- On a clock of 1440 minutes a window holds a minute exactly if the day is the window's own and the way
-- forward from the start to the minute is shorter than the way to the end: a window that ends where it
-- starts holds none, one that wraps holds the minutes after midnight of its own day and none of the next.
pub in_window_iff :
    (w : ScheduledWindow) (day hour minute : ℕ)
    → opens w < 1440
    → closes w < 1440
    → hour * 60 + minute < 1440
    → (in_window w day hour minute ≡ true) ↔ (
        (day ≡ w.weekday) × (forward (opens w) (hour * 60 + minute) < forward (opens w) (closes w)))
unfolding in_window
in_window_iff w day hour minute h k l = ground arith
