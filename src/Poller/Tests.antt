-- ===== src/Poller/Tests.antt =====
-- Concrete ticks of the poller, and the theorems on them applied to one.
use qrx_node_suite.Prelude.{
  ℕ, Bool, true, false, Option, none, some, List, [], ◌∷◌, ◌≡◌, refl, arith,
}
use qrx_node_suite.Guardian.{health_healthy, health_offline, new, evaluate}
use qrx_node_suite.Events.{publish, offer}
use qrx_node_suite.Node.{
  Models, Value, available, unset, PeerSummary, NodeStatus, Snapshot, Adapter, Answer, answered,
  failed,
}
use qrx_node_suite.Poller.{
  Settings, Tick, Poller, node_online, node_offline, height_changed, core_running, tick,
}
use qrx_node_suite.Poller.Serving.{IsServing, tick-IsServing}
use qrx_node_suite.Poller.Replay.{receive, Listens, replay, run, run_events, replay-run_events}

-- Each model is a number.
abbrev pub models : Models
models = record {
  SyncStatus = ℕ;
  NetworkStatus = ℕ;
  BlockchainStatus = ℕ;
  MempoolStatus = ℕ;
  FeeInfo = ℕ;
  ValidatorStatus = ℕ;
  BlockProducerStatus = ℕ;
  VelocityStatus = ℕ;
  NonceLanes = ℕ;
  WalletSummary = ℕ;
  SystemStatus = ℕ;
  RecentBlock = ℕ;
  RecentTransaction = ℕ;
}

abbrev pub blank : {A : Type 0} → A → Value A
blank a = record { state = unset; value = a; reason = "" }

abbrev avail : ℕ → Value ℕ
avail n = record { state = available; value = n; reason = "" }

abbrev pub peers : PeerSummary
peers = record { connected = 0; inbound = 0; outbound = 0 }

abbrev pub node : Bool → Value ℕ → NodeStatus models
node b h = record {
  online = b;
  network = blank "";
  height = h;
  finalized_height = blank 0;
  sync = blank 0;
  peers = blank peers;
  mempool_tx_count = blank 0;
  qrx_version = blank "";
  node_uptime_seconds = blank 0;
  last_successful_poll = none;
  last_error = "";
  simulation_mode = false;
  adapter_name = "";
}

abbrev pub empty : Snapshot models
empty = record {
  node = node false (blank 0);
  network = 0;
  blockchain = 0;
  mempool = 0;
  fees = 0;
  validator = 0;
  block_producer = 0;
  velocity = 0;
  nonce_lanes = 0;
  wallet = 0;
  system = 0;
  recent_blocks = [];
  recent_transactions = [];
  health = health_offline;
  adapter_name = "";
  updated_at = 0;
}

abbrev adapter : Answer (NodeStatus models) → Adapter models
adapter s = record {
  name = "qrx007";
  get_node_status = s;
  get_network_info = answered 1;
  get_blockchain_info = answered 1;
  get_mempool_info = answered 1;
  get_fee_info = answered 1;
  get_validator_status = answered 1;
  get_block_producer_info = answered 1;
  get_velocity_info = answered 1;
  get_nonce_lanes = answered 1;
  get_wallet_info = answered 1;
  get_recent_blocks = failed "timeout";
  get_recent_transactions = answered (1 ∷ []);
  is_healthy = true;
}

abbrev at : ℕ → Option (Adapter models) → Tick models
at n a = record {
  active = a;
  collect = some 1;
  core_process_running = some true;
  started = n;
  succeeded = n;
  classified = n;
  restarted = n;
  published = n;
  alerted_at = n;
}

abbrev settings : Settings models
settings = record {
  empty = empty;
  guardian = record {
    degraded_after = 30;
    unhealthy_after = 120;
    offline_after = 300;
    max_auto_restarts = 3;
    restart_window = 900;
    min_restart_interval = 60;
  };
  rules = [];
  has_bus = true;
  has_alerts = true;
}

abbrev poller : Poller models
poller = record {
  cache = empty;
  bus = record {
    subs = record { id = 1; queue = [] } ∷ [];
    next_id = 1;
    buf_size = 4;
    max_subscribers = 0;
  };
  guardian = new;
  alerts = record { rows = []; last_id = 0; published = []; ticks = 0; fails = λ n. false };
  last_success = none;
}

abbrev up : ℕ → ℕ → Tick models
up n h = at n (some (adapter (answered (node true (avail h)))))

abbrev down : ℕ → Tick models
down n = at n (some (adapter (failed "refused")))

abbrev ticks : List (Tick models)
ticks = up 1000 7 ∷ up 1005 8 ∷ down 1010 ∷ []

turned_healthy : (tick settings (up 1000 7) poller).1.cache.health ≡ health_healthy
unfolding tick evaluate
turned_healthy = refl

published_events :
    run_events settings 1 ticks poller
    ≡ (node_online 1000 ∷ height_changed 1005 8 ∷ node_offline 1010 ∷ [])
unfolding run_events tick evaluate receive publish offer
published_events = refl

-- The last height outlives a failed call.
kept_height : (run settings 1 ticks poller).cache.node.height.value ≡ 8
unfolding run tick evaluate receive publish
kept_height = refl

tick-IsServing_example :
    (core_running (some true) (up 1000 7).active ≡ true) × IsServing (up 1000 7).active
tick-IsServing_example = tick-IsServing settings (up 1000 7) poller turned_healthy

listens : Listens 1 poller
listens = record { is_empty = refl; has_room = omega arith }

replay-run_events_example :
    replay (run_events settings 1 ticks poller) poller.cache.node.online
    ≡ (run settings 1 ticks poller).cache.node.online
replay-run_events_example = replay-run_events settings 1 ticks poller refl listens
