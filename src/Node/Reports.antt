-- ===== src/Node/Reports.antt =====
-- agent/models: what an adapter reports of the node, and the ways to build a Value.
--
-- An int is its 64-bit word. A field that a literal of the source leaves out is its zero value.
use qrx_node_suite.Prelude.{ℕ, String, Bool, Option, none, some, List}
use qrx_node_suite.Node.{Value, available, unavailable, unsupported, unset}

module _ {A : Type 0} where
  unfoldable pub avail : A → Value A
  avail a = record { state = available; value = a; reason = "" }

  -- The first argument is the zero of the type.
  unfoldable pub unavail : A → String → Value A
  unavail zero reason = record { state = unavailable; value = zero; reason = reason }

  unfoldable pub unsupp : A → String → Value A
  unsupp zero reason = record { state = unsupported; value = zero; reason = reason }

  -- The zero Value.
  abbrev pub missing : A → Value A
  missing zero = record { state = unset; value = zero; reason = "" }

  -- A field that was read from an answer, or was not there.
  unfoldable pub reported : A → Option A → Value A
  unfolding avail unavail
  reported zero none = unavail zero "field not present in qrx-cli response"
  reported zero (some a) = avail a

pub record NetworkStatus : Type 0 where
  pub network : Value String
  pub peer_count : Value ℕ
  pub protocol_version : Value String
  pub listen_addresses : Value (List String)

pub record BlockchainStatus : Type 0 where
  pub network : Value String
  pub height : Value ℕ
  pub finalized_height : Value ℕ
  pub best_block_hash : Value String

pub record MempoolStatus : Type 0 where
  pub tx_count : Value ℕ
  pub size_bytes : Value ℕ

pub record FeeInfo : Type 0 where
  pub min_fee : Value String
  pub recommended_fee : Value String

pub record RecentBlock : Type 0 where
  pub height : ℕ
  pub hash : String
  pub timestamp : ℕ
  pub tx_count : Option ℕ
  pub producer : String

pub record RecentTransaction : Type 0 where
  pub hash : String
  pub height : Option ℕ
  pub timestamp : ℕ
  pub from : String
  pub to : String
  pub value : String

pub record ValidatorStatus : Type 0 where
  pub active : Value Bool
  pub address : Value String
  pub stake : Value String
  pub delegated_stake : Value String
  pub voting_weight : Value String

pub record BlockProducerStatus : Type 0 where
  pub producer_status : Value String
  pub blocks_produced : Value ℕ
  pub missed_blocks : Value ℕ

pub record VelocityStatus : Type 0 where
  pub engine_status : Value String
  pub transaction_version : Value String
  pub scheduler_version : Value String
  pub parallel_width : Value ℕ
  pub execution_waves : Value ℕ
  pub conflicts : Value ℕ
  pub selective_retries : Value ℕ

pub record Lane : Type 0 where
  pub index : ℕ
  pub next_nonce : String
  pub in_flight : ℕ

pub record NonceLanes : Type 0 where
  pub lane_count : Value ℕ
  pub lanes : Value (List Lane)

pub record WalletSummary : Type 0 where
  pub loaded : Value Bool
  pub address : Value String
  pub balance : Value String
