-- ===== src/Legacy006.antt =====
-- agent/adapters/legacy006/legacy006.go: the adapter of a QRX 0.0.6 node, over the same runs of qrx-cli
-- as Qrx007. It keeps no capabilities: what that branch lacks is unsupported without a run.
pub mod Agreement
use qrx_node_suite.Prelude.{ℕ, String, Bool, true, false, Option, none, some, List, [], ◌∷◌}
use qrx_node_suite.Exec.{Exec, done, ◌>>=◌}
use qrx_node_suite.QrxCli.{fields, int64_of, int_of, bool_of, str}
use qrx_node_suite.QrxCli.Runner.{Config}
use qrx_node_suite.Node.{Models, Value, NodeStatus}
use qrx_node_suite.Node.Reports.{
  unsupp, missing, reported, NetworkStatus, BlockchainStatus, MempoolStatus, FeeInfo, RecentBlock,
  RecentTransaction, ValidatorStatus, BlockProducerStatus, VelocityStatus, NonceLanes,
  WalletSummary,
}
use qrx_node_suite.Qrx007.{
  Library, Session, Fields, text, number, cli, query, decode, limit_text, cap_validator_status,
  cap_block_producer_info, cap_recent_blocks, cap_velocity, cap_nonce_lanes,
}
use qrx_node_suite.Qrx007.Reports.{value_or, no_peers}

abbrev pub unsupported_reason : String
unsupported_reason = "not implemented on the QRX 0.0.6 command surface (pre-VELOCITY)"

pub capabilities : List (String × Bool)
capabilities =
    (cap_validator_status, false)
    ∷ (cap_block_producer_info, false)
    ∷ (cap_recent_blocks, true)
    ∷ (cap_velocity, false)
    ∷ (cap_nonce_lanes, false)
    ∷ []

module _ (ms : Models) (zero_sync : ms.SyncStatus) (l : Library) (cfg : Config) where
  -- The fields that a literal leaves out are zero; those of a status, read or not.
  abbrev pub partial_status : Value String → Value ℕ → String → NodeStatus ms
  partial_status network height last_error = record {
    online = true;
    network = network;
    height = height;
    finalized_height = missing 0;
    sync = missing zero_sync;
    peers = missing no_peers;
    mempool_tx_count = missing 0;
    qrx_version = missing "";
    node_uptime_seconds = missing 0;
    last_successful_poll = none;
    last_error = last_error;
    simulation_mode = false;
    adapter_name = "legacy006";
  }

  pub status_of : Option (Fields l cfg) → NodeStatus ms
  status_of none = partial_status (missing "") (missing 0) "unexpected response shape"
  status_of (some m) =
      partial_status (text l cfg m ("network" ∷ "chain" ∷ []))
        (number l cfg m ("height" ∷ "blocks" ∷ [])) ""

  pub get_node_status : Exec Session (NodeStatus ms)
  unfolding status_of
  get_node_status = do raw ← cli l cfg "getnodestatus" []; done (status_of (fields l.json raw))

module _ (l : Library) (cfg : Config) where
  pub get_network_info : Exec Session NetworkStatus
  get_network_info = do
    m ← query l cfg "getnetworkinfo"
    done (record {
      network = text l cfg m ("network" ∷ []);
      peer_count = reported 0 (int_of l.json m ("peer_count" ∷ "connections" ∷ []));
      protocol_version = missing "";
      listen_addresses = missing [];
    })

  pub get_blockchain_info : Exec Session BlockchainStatus
  get_blockchain_info = do
    m ← query l cfg "getblockchaininfo"
    done (record {
      network = text l cfg m ("network" ∷ "chain" ∷ []);
      height = number l cfg m ("height" ∷ "blocks" ∷ []);
      finalized_height = missing 0;
      best_block_hash = missing "";
    })

  pub get_mempool_info : Exec Session MempoolStatus
  get_mempool_info = do
    m ← query l cfg "getmempoolinfo"
    done (record { tx_count = number l cfg m ("size" ∷ "tx_count" ∷ []); size_bytes = missing 0 })

  pub get_wallet_info : Exec Session WalletSummary
  get_wallet_info = do
    m ← query l cfg "getwalletinfo"
    done (record {
      loaded = reported false (bool_of l.json m ("loaded" ∷ []));
      address = text l cfg m ("address" ∷ []);
      balance = text l cfg m ("balance" ∷ []);
    })

  -- The answer is the list itself.
  pub list_of : String → ℕ → Exec Session (List (Fields l cfg))
  list_of command limit = do
    raw ← cli l cfg command (limit_text l cfg limit ∷ [])
    decode l cfg l.objects (some raw)

  pub recent_blocks : List (Fields l cfg) → List RecentBlock
  recent_blocks [] = []
  recent_blocks (e ∷ rest) =
      record {
        height = value_or 0 (int64_of l.json e ("height" ∷ []));
        hash = value_or "" (str l.json e ("hash" ∷ "block_hash" ∷ []));
        timestamp = value_or 0 (int64_of l.json e ("timestamp" ∷ "time" ∷ []));
        tx_count = none;
        producer = "";
      }
      ∷ recent_blocks rest

  pub get_recent_blocks : ℕ → Exec Session (List RecentBlock)
  unfolding list_of recent_blocks
  get_recent_blocks limit = do es ← list_of "getrecentblocks" limit; done (recent_blocks es)

  pub recent_transactions : List (Fields l cfg) → List RecentTransaction
  recent_transactions [] = []
  recent_transactions (e ∷ rest) =
      record {
        hash = value_or "" (str l.json e ("hash" ∷ "txid" ∷ []));
        height = none;
        timestamp = value_or 0 (int64_of l.json e ("timestamp" ∷ "time" ∷ []));
        from = "";
        to = "";
        value = "";
      }
      ∷ recent_transactions rest

  pub get_recent_transactions : ℕ → Exec Session (List RecentTransaction)
  unfolding list_of recent_transactions
  get_recent_transactions limit = do
    es ← list_of "getrecenttransactions" limit
    done (recent_transactions es)

abbrev pub no_text : Value String
no_text = unsupp "" unsupported_reason

abbrev pub no_number : Value ℕ
no_number = unsupp 0 unsupported_reason

pub get_fee_info : Exec Session FeeInfo
get_fee_info = done (record { min_fee = no_text; recommended_fee = no_text })

pub get_validator_status : Exec Session ValidatorStatus
get_validator_status = done (record {
  active = unsupp false unsupported_reason;
  address = no_text;
  stake = no_text;
  delegated_stake = no_text;
  voting_weight = no_text;
})

pub get_block_producer_info : Exec Session BlockProducerStatus
get_block_producer_info =
    done
      (record { producer_status = no_text; blocks_produced = no_number; missed_blocks = no_number })

pub get_velocity_info : Exec Session VelocityStatus
get_velocity_info = done (record {
  engine_status = no_text;
  transaction_version = no_text;
  scheduler_version = no_text;
  parallel_width = no_number;
  execution_waves = no_number;
  conflicts = no_number;
  selective_retries = no_number;
})

pub get_nonce_lanes : Exec Session NonceLanes
get_nonce_lanes = done (record { lane_count = no_number; lanes = unsupp [] unsupported_reason })
