-- ===== src/Events/Tests.antt =====
-- A concrete bus with one subscriber whose queue is full, and the theorems applied to it.
use qrx_node_suite.Prelude.{ℕ, [], ◌∷◌, arith}
use qrx_node_suite.Events.{Bus}
use qrx_node_suite.Events.Bounds.{IsSound, AreBounded, apply, op_publish, apply-IsSound}

abbrev full : Bus ℕ
full = record {
  subs = record { id = 1; queue = 10 ∷ 11 ∷ [] } ∷ [];
  next_id = 1;
  buf_size = 2;
  max_subscribers = 2;
}

full-IsSound : IsSound full
unfolding IsSound AreBounded
full-IsSound = (omega arith, omega arith, tt)

apply-IsSound_example : IsSound (apply (op_publish 12) full)
apply-IsSound_example = apply-IsSound (op_publish 12) full full-IsSound
