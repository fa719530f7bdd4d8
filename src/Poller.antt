-- ===== src/Poller.antt =====
-- agent/cmd/agentd/poller.go: one tick of the polling loop, over agent/api/cache.go, Guardian, the
-- event bus and the alert engine.
--
-- What the adapter, the monitoring and the clock answer during a tick is a record. The alert engine
-- lists its events in its own world, not in the bus. The log lines are left out.
pub mod Serving
pub mod Replay
pub mod Tests
use qrx_node_suite.Prelude.{
  ℕ, String, Bool, true, false, not, ◌&&◌, Option, none, some, List, [], ◌∷◌, eqb, if◌then◌else◌,
}
use qrx_node_suite.Node.{
  Value, is_ok, PeerSummary, Models, Answer, answered, failed, NodeStatus, Snapshot, Adapter,
}
use qrx_node_suite.Guardian.{
  HealthState, Guardian, Signals, Config as GuardianConfig, evaluate as evaluate_health,
}
use qrx_node_suite.Events.{Bus, publish}
use qrx_node_suite.Alerts.{Rule, World, evaluate as evaluate_alerts}

pub data Event : Type 0 where
  node_online node_offline : ℕ → Event
  height_changed mempool_changed : ℕ → ℕ → Event
  peer_count_changed : ℕ → PeerSummary → Event

-- alerts.Snapshot without UpdateAvailable, which the tick leaves empty.
pub record AlertSnapshot (m : Models) : Type 0 where
  pub health : HealthState
  pub system : m.SystemStatus
  pub node : NodeStatus m

-- One tick as seen from outside: the answers and each time.Now() in its order. `collect` is none
-- without a Monitoring, `core_process_running` without a CoreProcessRunning.
pub record Tick (m : Models) : Type 0 where
  pub active : Option (Adapter m)
  pub collect : Option (m.SystemStatus)
  pub core_process_running : Option Bool
  pub started : ℕ
  pub succeeded : ℕ
  pub classified : ℕ
  pub restarted : ℕ
  pub published : ℕ
  pub alerted_at : ℕ

-- `empty` is the zero Snapshot; without a Bus or an Alerts the flag is false.
pub record Settings (m : Models) : Type 0 where
  pub empty : Snapshot m
  pub guardian : GuardianConfig
  pub rules : List (Rule (AlertSnapshot m))
  pub has_bus : Bool
  pub has_alerts : Bool

pub record Poller (m : Models) : Type 0 where
  pub cache : Snapshot m
  pub bus : Bus Event
  pub guardian : Guardian
  pub alerts : World
  pub last_success : Option ℕ

abbrev pub keep : {A : Type 0} → Answer A → A → A
keep (answered a) prev = a
keep (failed e) prev = prev

abbrev pub changed : Value ℕ → Value ℕ → Bool
changed v w = is_ok v && is_ok w && not (eqb v.value w.value)

abbrev pub peers_changed : Value PeerSummary → Value PeerSummary → Bool
peers_changed v w = is_ok v && is_ok w && not (eqb (v.value.connected) (w.value.connected))

abbrev pub online_diff : ℕ → Bool → Bool → List Event → List Event
online_diff now false true es = node_online now ∷ es
online_diff now true false es = node_offline now ∷ es
online_diff now false false es = es
online_diff now true true es = es

abbrev pub event_if : Bool → Event → List Event → List Event
event_if true e es = e ∷ es
event_if false e es = es

pub publish_all : List Event → Bus Event → Bus Event
publish_all [] b = b
publish_all (e ∷ es) b = publish_all es (publish e b)

abbrev pub success : Bool → ℕ → Option ℕ → Option ℕ
success true now last = some now
success false now last = last

module _ {m : Models} where
  abbrev pub keep_node : Answer (NodeStatus m) → NodeStatus m → NodeStatus m
  keep_node (answered s) prev = s
  keep_node (failed e) prev = record prev { online = false; last_error = e }

  pub collect : Adapter m → Snapshot m → Snapshot m → Snapshot m
  collect a prev snap = record snap {
    node = keep_node a.get_node_status prev.node;
    network = keep a.get_network_info prev.network;
    blockchain = keep a.get_blockchain_info prev.blockchain;
    mempool = keep a.get_mempool_info prev.mempool;
    fees = keep a.get_fee_info prev.fees;
    validator = keep a.get_validator_status prev.validator;
    block_producer = keep a.get_block_producer_info prev.block_producer;
    velocity = keep a.get_velocity_info prev.velocity;
    nonce_lanes = keep a.get_nonce_lanes prev.nonce_lanes;
    wallet = keep a.get_wallet_info prev.wallet;
    recent_blocks = keep a.get_recent_blocks prev.recent_blocks;
    recent_transactions = keep a.get_recent_transactions prev.recent_transactions;
  }

  pub polled : Option (Adapter m) → Snapshot m → Snapshot m → Snapshot m
  unfolding collect
  polled none prev snap = record snap {
    node = record (snap.node) { online = false; last_error = "no active adapter" };
  }
  polled (some a) prev snap = collect a prev (record snap { adapter_name = a.name })

  abbrev pub adapter_healthy : Option (Adapter m) → Bool
  adapter_healthy none = false
  adapter_healthy (some a) = a.is_healthy

  -- Without a CoreProcessRunning, an active adapter counts.
  abbrev pub core_running : Option Bool → Option (Adapter m) → Bool
  core_running (some b) a = b
  core_running none none = false
  core_running none (some a) = true

  abbrev pub measured : Option (m.SystemStatus) → Snapshot m → Snapshot m
  measured none snap = snap
  measured (some s) snap = record snap { system = s }

  -- The events of publishDiffs in their order.
  pub diffs : ℕ → Snapshot m → Snapshot m → List Event
  diffs now prev snap = online_diff now prev.node.online snap.node.online (
      event_if (changed prev.node.height snap.node.height)
        (height_changed now (snap.node.height.value))
        (event_if (peers_changed prev.node.peers snap.node.peers)
          (peer_count_changed now (snap.node.peers.value))
          (event_if (changed prev.node.mempool_tx_count snap.node.mempool_tx_count)
            (mempool_changed now (snap.node.mempool_tx_count.value)) [])))

  pub publish_diffs : Bool → ℕ → Snapshot m → Snapshot m → Bus Event → Bus Event
  unfolding diffs publish_all
  publish_diffs true now prev snap b = publish_all (diffs now prev snap) b
  publish_diffs false now prev snap b = b

  -- What the tick has gathered before Guardian looks at it.
  pub gathered : Settings m → Tick m → Snapshot m → Snapshot m
  unfolding polled
  gathered c t prev =
      measured t.collect (polled t.active prev (record (c.empty) { updated_at = t.started }))

  pub signals : Tick m → Snapshot m → Option ℕ → Signals
  signals t snap last = record {
    qrx_process_running = core_running t.core_process_running t.active;
    node_online = snap.node.online;
    adapter_healthy = adapter_healthy t.active;
    last_successful_poll = last;
  }

  -- The error of the engine is only logged.
  pub alerted : Settings m → ℕ → Snapshot m → World → World
  alerted c now snap w =
      if c.has_alerts
      then (evaluate_alerts c.rules
          (record { health = snap.health; system = snap.system; node = snap.node }) now w).1
      else w

  -- The flag says whether Guardian requests a restart.
  pub tick : Settings m → Tick m → Poller m → Bool × Poller m
  unfolding gathered signals publish_diffs alerted
  tick c t p =
      let snap = gathered c t p.cache in
      let last = success snap.node.online t.succeeded p.last_success in
      let (wanted, g) =
        evaluate_health c.guardian (signals t snap last) t.classified t.restarted p.guardian in
      let seen = record snap { health = g.state } in
      (
        wanted,
        record {
          cache = seen;
          bus = publish_diffs c.has_bus t.published p.cache seen p.bus;
          guardian = g;
          alerts = alerted c t.alerted_at seen p.alerts;
          last_success = last;
        },
      )
