-- ===== src/Qrx007/Gated.antt =====
-- agent/adapters/qrx007/qrx007.go: the reports that stand behind a capability.
use qrx_node_suite.Prelude.{
  ℕ, String, Bool, true, false, not, ◌&&◌, Option, none, some, List, [], ◌∷◌, eqb, length,
  if◌then◌else◌, ◌==◌,
}
use qrx_node_suite.Exec.{Exec, done, reads, ◌>>=◌}
use qrx_node_suite.QrxCli.{lookup, int_of, bool_of, is_neg}
use qrx_node_suite.QrxCli.Runner.{Config}
use qrx_node_suite.Node.{Value}
use qrx_node_suite.Node.Reports.{
  avail, unavail, unsupp, reported, ValidatorStatus, BlockProducerStatus, VelocityStatus, Lane,
  NonceLanes,
}
use qrx_node_suite.Qrx007.{
  Library, Session, Raw, Fields, text, number, cli, query, object_fields, result_object, gated,
  cap_validator_status, cap_block_producer_info, cap_velocity, cap_nonce_lanes,
}

module _ (l : Library) (cfg : Config) where
  abbrev pub no_text : String → Value String
  no_text reason = unsupp "" reason

  abbrev pub no_number : String → Value ℕ
  no_number reason = unsupp 0 reason

  abbrev pub no_validator : String → ValidatorStatus
  no_validator reason = record {
    active = unsupp false reason;
    address = no_text reason;
    stake = no_text reason;
    delegated_stake = no_text reason;
    voting_weight = no_text reason;
  }

  -- An int64 above zero.
  abbrev pub is_positive : ℕ → Bool
  is_positive n = not (is_neg n) && not (eqb n 0)

  pub active_of : Option (Raw l cfg) → Value Bool
  active_of power = elim power [
    | none ↦ unavail false "validator power not present in qrx-cli response"
    | some raw ↦ elim (l.json.int64 raw) [
      | none ↦ unavail false "validator power not present in qrx-cli response"
      | some n ↦ avail (is_positive n)
    ]
  ]

  -- The object under a key, where there is one.
  abbrev pub object_at : Option (Raw l cfg) → Fields l cfg
  object_at none = []
  object_at (some raw) = elim (l.json.object raw) [ none ↦ [] | some o ↦ object_fields l cfg o ]

  pub validator_status : Fields l cfg → ValidatorStatus
  unfolding lookup active_of
  validator_status m =
      let staking = object_at (lookup "staking" m) in
      record {
        active = active_of (lookup "validator_power" staking);
        address = text l cfg staking ("address" ∷ []);
        stake = text l cfg staking ("self_stake" ∷ []);
        delegated_stake = text l cfg staking ("delegated_to_me" ∷ []);
        voting_weight = text l cfg staking ("validator_power" ∷ []);
      }

  pub get_validator_status : Exec Session ValidatorStatus
  unfolding validator_status
  get_validator_status =
      gated l cfg cap_validator_status
        (no_validator "getvalidatorstatus not available from this QRX Core instance")
        (do m ← query l cfg "getvalidatorstatus"; done (validator_status m))

  abbrev pub producer_status : Option Bool → Value String
  producer_status none = unavail "" "enabled field not present in qrx-cli response"
  producer_status (some true) = avail "enabled"
  producer_status (some false) = avail "disabled"

  abbrev pub no_producer : String → BlockProducerStatus
  no_producer reason = record {
    producer_status = no_text reason;
    blocks_produced = no_number reason;
    missed_blocks = no_number reason;
  }

  pub get_block_producer_info : Exec Session BlockProducerStatus
  get_block_producer_info =
      gated l cfg cap_block_producer_info
        (no_producer "getblockproducerinfo not available from this QRX Core instance")
        (do
          m ← query l cfg "getblockproducerinfo"
          done (record {
            producer_status = producer_status (bool_of l.json m ("enabled" ∷ []));
            blocks_produced = number l cfg m ("blocks_produced" ∷ []);
            missed_blocks = number l cfg m ("missed_blocks" ∷ []);
          }))

  abbrev pub no_velocity : String → VelocityStatus
  no_velocity reason = record {
    engine_status = no_text reason;
    transaction_version = no_text reason;
    scheduler_version = no_text reason;
    parallel_width = no_number reason;
    execution_waves = no_number reason;
    conflicts = no_number reason;
    selective_retries = no_number reason;
  }

  pub get_velocity_info : Exec Session VelocityStatus
  get_velocity_info =
      gated l cfg cap_velocity
        (no_velocity "getvelocityinfo not available from this QRX Core instance")
        (do
          m ← query l cfg "getvelocityinfo"
          done (record {
            engine_status = text l cfg m ("core_track" ∷ "engine_status" ∷ "status" ∷ []);
            transaction_version =
                text l cfg m ("velocity_tx_version" ∷ "transaction_version" ∷ "tx_version" ∷ []);
            scheduler_version = text l cfg m (
                "parallel_execution_model" ∷ "deterministic_mempool_order" ∷ "scheduler_version"
                ∷ []);
            parallel_width = reported 0 (int_of l.json m ("parallel_width" ∷ []));
            execution_waves = number l cfg m ("execution_waves" ∷ []);
            conflicts = number l cfg m ("conflicts" ∷ []);
            selective_retries = number l cfg m ("selective_retries" ∷ []);
          }))

  abbrev pub no_lanes : Value ℕ → Value (List Lane) → NonceLanes
  no_lanes count lanes = record { lane_count = count; lanes = lanes }

  -- A lane that does not scan is left out.
  pub scanned : List String → List Lane
  scanned [] = []
  scanned (raw ∷ rest) =
      let lanes = scanned rest in
      elim (l.scan_lane raw) [
        | none ↦ lanes
        | some (index, nonce) ↦ record { index = index; next_nonce = nonce; in_flight = 0 } ∷ lanes
      ]

  pub lanes_of : Option (List String) → NonceLanes
  unfolding scanned
  lanes_of none =
      no_lanes (unavail 0 "unexpected getnoncelanes response shape")
        (unavail [] "unexpected getnoncelanes response shape")
  lanes_of (some raws) = no_lanes (avail (length (scanned raws))) (avail (scanned raws))

  abbrev pub strings_at : Option (Raw l cfg) → Option (List String)
  strings_at none = none
  strings_at (some raw) = l.strings raw

  pub lanes_for : String → Exec Session NonceLanes
  unfolding lanes_of
  lanes_for address =
      if address == ""
      then done (
          no_lanes (unavail 0 "wallet address unavailable")
            (unavail [] "wallet address unavailable"))
      else (do
        raw ← cli l cfg "getnoncelanes" (address ∷ [])
        o ← result_object l cfg raw
        done (lanes_of (strings_at (lookup "lanes" o))))

  pub get_nonce_lanes : Exec Session NonceLanes
  unfolding lanes_for
  get_nonce_lanes =
      gated l cfg cap_nonce_lanes
        (no_lanes (unsupp 0 "getnoncelanes not available from this QRX Core instance")
          (unsupp [] "getnoncelanes not available from this QRX Core instance"))
        (do address ← reads (λ s. s.wallet_address); lanes_for address)
