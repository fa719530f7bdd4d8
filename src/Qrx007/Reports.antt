-- ===== src/Qrx007/Reports.antt =====
-- agent/adapters/qrx007/qrx007.go: the reports that the adapter makes of the answers of qrx-cli.
use qrx_node_suite.Prelude.{
  ℕ, String, true, false, not, ◌&&◌, Option, none, some, List, [], ◌∷◌, if◌then◌else◌, ◌==◌,
}
use qrx_node_suite.Exec.{Exec, done, ◌>>=◌}
use qrx_node_suite.QrxCli.{fields, str, int64_of, bool_of}
use qrx_node_suite.QrxCli.Runner.{Config}
use qrx_node_suite.Node.{Models, Value, PeerSummary, NodeStatus, is_ok}
use qrx_node_suite.Node.Reports.{
  avail, unavail, missing, reported, NetworkStatus, BlockchainStatus, MempoolStatus, FeeInfo,
  RecentBlock, RecentTransaction, WalletSummary,
}
use qrx_node_suite.Qrx007.{
  Library, Session, Fields, text, number, cli, query, entries, optional_fields,
}

-- The value of a field, or the zero where it is not there.
abbrev pub value_or : {A : Type 0} → A → Option A → A
value_or zero none = zero
value_or zero (some a) = a

abbrev pub no_peers : PeerSummary
no_peers = record { connected = 0; inbound = 0; outbound = 0 }

module _ (ms : Models) (zero_sync : ms.SyncStatus) (l : Library) (cfg : Config) where
  -- Online, with nothing known: the command succeeded, its answer has another shape.
  abbrev pub shapeless : NodeStatus ms
  shapeless = record {
    online = true;
    network = missing "";
    height = missing 0;
    finalized_height = missing 0;
    sync = missing zero_sync;
    peers = missing no_peers;
    mempool_tx_count = missing 0;
    qrx_version = missing "";
    node_uptime_seconds = missing 0;
    last_successful_poll = none;
    last_error = "unexpected getnodestatus response shape";
    simulation_mode = false;
    adapter_name = "qrx007";
  }

  unfoldable pub node_status :
      Fields l cfg → Fields l cfg → Fields l cfg → Fields l cfg → NodeStatus ms
  node_status m build uptime mempool = record {
    online = true;
    network = text l cfg m ("network" ∷ "chain" ∷ []);
    height = number l cfg m ("local_height" ∷ "height" ∷ "blocks" ∷ "block_height" ∷ []);
    finalized_height = number l cfg m ("finalized_height" ∷ "finalizedheight" ∷ []);
    sync =
        unavail zero_sync
          "QRX 0.0.7 cannot establish sync state without confirmed live peer telemetry";
    peers =
        unavail no_peers
          "QRX 0.0.7 reports configured peer entries, not confirmed live connections";
    mempool_tx_count = number l cfg mempool ("txs" ∷ "size" ∷ "tx_count" ∷ []);
    qrx_version = text l cfg build ("version" ∷ "build_version" ∷ []);
    node_uptime_seconds = number l cfg uptime ("uptime" ∷ "uptime_seconds" ∷ []);
    last_successful_poll = none;
    last_error = "";
    simulation_mode = false;
    adapter_name = "qrx007";
  }

  unfoldable pub status_of : Option (Fields l cfg) → Exec Session (NodeStatus ms)
  unfolding optional_fields node_status
  status_of none = done shapeless
  status_of (some m) = do
    build ← optional_fields l cfg "getbuildinfo"
    uptime ← optional_fields l cfg "getuptime"
    mempool ← optional_fields l cfg "getmempoolinfo"
    done (node_status m build uptime mempool)

  unfoldable pub get_node_status : Exec Session (NodeStatus ms)
  unfolding cli status_of
  get_node_status = do raw ← cli l cfg "getnodestatus" []; status_of (fields l.json raw)

module _ (l : Library) (cfg : Config) where
  abbrev pub configured_network : String → Value String
  configured_network network =
      if network == "" then unavail "" "network was not configured" else avail network

  pub get_network_info : Exec Session NetworkStatus
  unfolding query
  get_network_info = do
    m ← query l cfg "getnetworkinfo"
    done (record {
      network = configured_network cfg.network;
      peer_count =
          unavail 0 "QRX 0.0.7 connections counts configured entries, not confirmed live peers";
      protocol_version = text l cfg m ("protocolversion" ∷ "protocol_version" ∷ []);
      listen_addresses =
          unavail [] "QRX 0.0.7 reports only a listening boolean, not bound addresses";
    })

  unfoldable pub get_blockchain_info : Exec Session BlockchainStatus
  unfolding query
  get_blockchain_info = do
    m ← query l cfg "getblockchaininfo"
    done (record {
      network = text l cfg m ("network" ∷ "chain" ∷ []);
      height = number l cfg m ("height" ∷ "blocks" ∷ []);
      finalized_height = number l cfg m ("finalized_height" ∷ []);
      best_block_hash = text l cfg m ("bestblockhash" ∷ "best_block_hash" ∷ []);
    })

  pub get_mempool_info : Exec Session MempoolStatus
  unfolding query
  get_mempool_info = do
    m ← query l cfg "getmempoolinfo"
    done (record {
      tx_count = number l cfg m ("txs" ∷ "size" ∷ "tx_count" ∷ []);
      size_bytes = number l cfg m ("bytes" ∷ "size_bytes" ∷ []);
    })

  pub get_fee_info : Exec Session FeeInfo
  unfolding query
  get_fee_info = do
    m ← query l cfg "getfeeinfo"
    done (record {
      min_fee = text l cfg m ("min_fee" ∷ "minfee" ∷ []);
      recommended_fee = text l cfg m ("recommended_fee" ∷ []);
    })

  -- An entry's availability is dropped here: a field that is not there reads as zero.
  pub recent_block : Fields l cfg → RecentBlock
  recent_block e = record {
    height = value_or 0 (int64_of l.json e ("height" ∷ []));
    hash = value_or "" (str l.json e ("hash" ∷ "block_hash" ∷ []));
    timestamp = value_or 0 (int64_of l.json e ("timestamp" ∷ "time" ∷ []));
    tx_count = none;
    producer = value_or "" (str l.json e ("producer" ∷ []));
  }

  pub recent_blocks : List (Fields l cfg) → List RecentBlock
  unfolding recent_block
  recent_blocks [] = []
  recent_blocks (e ∷ rest) = recent_block e ∷ recent_blocks rest

  unfoldable pub get_recent_blocks : ℕ → Exec Session (List RecentBlock)
  unfolding entries recent_blocks
  get_recent_blocks limit = do
    es ← entries l cfg "getrecentblocks" "blocks" limit
    done (recent_blocks es)

  pub recent_transaction : Fields l cfg → RecentTransaction
  recent_transaction e = record {
    hash = value_or "" (str l.json e ("hash" ∷ "txid" ∷ []));
    height = none;
    timestamp = value_or 0 (int64_of l.json e ("timestamp" ∷ "time" ∷ []));
    from = value_or "" (str l.json e ("from" ∷ []));
    to = value_or "" (str l.json e ("to" ∷ []));
    value = value_or "" (str l.json e ("value" ∷ "amount" ∷ []));
  }

  pub recent_transactions : List (Fields l cfg) → List RecentTransaction
  unfolding recent_transaction
  recent_transactions [] = []
  recent_transactions (e ∷ rest) = recent_transaction e ∷ recent_transactions rest

  unfoldable pub get_recent_transactions : ℕ → Exec Session (List RecentTransaction)
  unfolding entries recent_transactions
  get_recent_transactions limit = do
    es ← entries l cfg "getrecenttransactions" "transactions" limit
    done (recent_transactions es)

  pub get_wallet_info : Exec Session WalletSummary
  unfolding query
  get_wallet_info = do
    m ← query l cfg "getwalletinfo"
    let address = text l cfg m ("address" ∷ [])
    let loaded = reported false (bool_of l.json m ("loaded" ∷ "wallet_loaded" ∷ []))
    done (record {
      loaded = if not (is_ok loaded) && is_ok address then avail true else loaded;
      address = address;
      balance = text l cfg m ("balance" ∷ []);
    })
