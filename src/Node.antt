-- ===== src/Node.antt =====
-- agent/models, agent/api/cache.go and agent/adapters/adapter.go: the snapshot of the node that the
-- agent keeps, and what an adapter answers.
--
-- An int64 is its 64-bit word and a time a number of nanoseconds. The models that the agent only
-- carries are the types of a record.
pub mod Reports
use qrx_node_suite.Prelude.{ℕ, String, Bool, true, false, Option, List}
use qrx_node_suite.Guardian.{HealthState}

-- `unset` is the empty string of a zero Value.
pub data AvailabilityState : Type 0 where
  available unavailable unsupported error_state unset : AvailabilityState

pub record Value (A : Type 0) : Type 0 where
  pub state : AvailabilityState
  pub value : A
  pub reason : String

abbrev pub same_as_available : AvailabilityState → Bool
same_as_available available = true
same_as_available _ = false

-- Ok.
abbrev pub is_ok : {A : Type 0} → Value A → Bool
is_ok v = same_as_available v.state

pub record PeerSummary : Type 0 where
  pub connected : ℕ
  pub inbound : ℕ
  pub outbound : ℕ

-- The models that a tick carries and never looks into.
pub record Models : Type 1 where
  pub SyncStatus : Type 0
  pub NetworkStatus : Type 0
  pub BlockchainStatus : Type 0
  pub MempoolStatus : Type 0
  pub FeeInfo : Type 0
  pub ValidatorStatus : Type 0
  pub BlockProducerStatus : Type 0
  pub VelocityStatus : Type 0
  pub NonceLanes : Type 0
  pub WalletSummary : Type 0
  pub SystemStatus : Type 0
  pub RecentBlock : Type 0
  pub RecentTransaction : Type 0

-- What a call of the adapter answers, an error by its text.
pub data Answer (A : Type 0) : Type 0 where
  answered : A → Answer A
  failed : String → Answer A

pub record NodeStatus (m : Models) : Type 0 where
  pub online : Bool
  pub network : Value String
  pub height : Value ℕ
  pub finalized_height : Value ℕ
  pub sync : Value (m.SyncStatus)
  pub peers : Value PeerSummary
  pub mempool_tx_count : Value ℕ
  pub qrx_version : Value String
  pub node_uptime_seconds : Value ℕ
  pub last_successful_poll : Option ℕ
  pub last_error : String
  pub simulation_mode : Bool
  pub adapter_name : String

-- api.Snapshot.
pub record Snapshot (m : Models) : Type 0 where
  pub node : NodeStatus m
  pub network : m.NetworkStatus
  pub blockchain : m.BlockchainStatus
  pub mempool : m.MempoolStatus
  pub fees : m.FeeInfo
  pub validator : m.ValidatorStatus
  pub block_producer : m.BlockProducerStatus
  pub velocity : m.VelocityStatus
  pub nonce_lanes : m.NonceLanes
  pub wallet : m.WalletSummary
  pub system : m.SystemStatus
  pub recent_blocks : List (m.RecentBlock)
  pub recent_transactions : List (m.RecentTransaction)
  pub health : HealthState
  pub adapter_name : String
  pub updated_at : ℕ

-- The active adapter, as it answers during one tick.
pub record Adapter (m : Models) : Type 0 where
  pub name : String
  pub get_node_status : Answer (NodeStatus m)
  pub get_network_info : Answer (m.NetworkStatus)
  pub get_blockchain_info : Answer (m.BlockchainStatus)
  pub get_mempool_info : Answer (m.MempoolStatus)
  pub get_fee_info : Answer (m.FeeInfo)
  pub get_validator_status : Answer (m.ValidatorStatus)
  pub get_block_producer_info : Answer (m.BlockProducerStatus)
  pub get_velocity_info : Answer (m.VelocityStatus)
  pub get_nonce_lanes : Answer (m.NonceLanes)
  pub get_wallet_info : Answer (m.WalletSummary)
  pub get_recent_blocks : Answer (List (m.RecentBlock))
  pub get_recent_transactions : Answer (List (m.RecentTransaction))
  pub is_healthy : Bool
