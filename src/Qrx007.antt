-- ===== src/Qrx007.antt =====
-- agent/adapters/qrx007/qrx007.go: the adapter of a QRX 0.0.7 node, over runs of qrx-cli.
--
-- The JSON library, the process and fmt.Sscanf are parameters. The session is what an adapter keeps
-- between its methods, with the argument lists of the runs of qrx-cli, newest first.
pub mod Reports
pub mod Gated
pub mod Answers
pub mod Backed
pub mod Limits
pub mod Cached
mod Tests
use qrx_node_suite.Prelude.{
  ℕ, String, Bool, true, false, not, ◌&&◌, ◌||◌, Option, none, some, List, [], ◌∷◌, ◌++◌, eqb, ltb,
  leb, length, if◌then◌else◌, ◌==◌,
}
use qrx_node_suite.Errors.{Err, Result, ok, err, bad_json}
use qrx_node_suite.Exec.{Exec, done, fail, reads, modify, ◌>>=◌, ◌>>◌, outcome}
use qrx_node_suite.QrxCli.{Json, lookup, fields, result, str, int64_of, itoa, is_neg}
use qrx_node_suite.Node.{Value}
use qrx_node_suite.Node.Reports.{reported}
use qrx_node_suite.QrxCli.Runner.{Config, Process, call, ping}

-- The libraries that the adapter calls, on raw messages: json.Unmarshal into a list of objects and
-- into a list of strings, and Sscanf of "lane=%d nonce=%s".
pub record Library : Type 1 where
  pub json : Json
  pub process : Process json.Raw
  pub objects : json.Raw → Option (List (List (String × json.Raw)))
  pub strings : json.Raw → Option (List String)
  pub scan_lane : String → Option (ℕ × String)
  -- The text with these code points.
  pub of_codes : List ℕ → String

pub record Session : Type 0 where
  pub caps : Option (List (String × Bool))
  pub wallet_address : String
  pub runs : List (List String)

-- New.
abbrev pub new : Session
new = record { caps = none; wallet_address = ""; runs = [] }

abbrev pub cap_validator_status : String
cap_validator_status = "validator_status"

abbrev pub cap_block_producer_info : String
cap_block_producer_info = "block_producer_info"

abbrev pub cap_recent_blocks : String
cap_recent_blocks = "recent_blocks"

abbrev pub cap_velocity : String
cap_velocity = "velocity_info"

abbrev pub cap_nonce_lanes : String
cap_nonce_lanes = "nonce_lanes"

-- A read of a Go map of flags.
pub has_cap : String → List (String × Bool) → Bool
unfolding lookup
has_cap key caps = elim (lookup key caps) [ none ↦ false | some b ↦ b ]

abbrev pub answered : {A : Type 0} → Result A → Bool
answered (ok a) = true
answered (err e) = false

-- The clamp of a limit, a 64-bit word.
pub limited : ℕ → ℕ
limited n = if is_neg n || eqb n 0 || ltb 100 n then 10 else n

module _ (l : Library) (cfg : Config) where
  abbrev pub Raw : Type 0
  Raw = l.json.Raw

  abbrev pub Fields : Type 0
  Fields = List (String × l.json.Raw)

  -- A run of qrx-cli.
  unfoldable pub cli : String → List String → Exec Session Raw
  unfolding call
  cli command args s =
      let (r, runs) = call l.process cfg command args s.runs in (r, record s { runs = runs })

  pub health : Exec Session (Unit {0})
  unfolding cli
  health = do raw ← cli "getuptime" []; done tt

  -- The `probe` of probeCapabilities.
  unfoldable pub probe : String → String → List String → Exec Session (String × Bool)
  unfolding outcome cli
  probe key command args = do r ← outcome (cli command args); done (key, answered r)

  pub address_of : Result Raw → Option String
  unfolding fields str
  address_of (err e) = none
  address_of (ok raw) = elim (fields l.json raw) [
    | none ↦ none
    | some m ↦ str l.json m ("address" ∷ [])
  ]

  pub probe_lanes : Option String → Exec Session (List (String × Bool))
  unfolding probe
  probe_lanes none = done []
  probe_lanes (some address) = do
    modify (λ s. record s { wallet_address = address })
    p ← probe cap_nonce_lanes "getnoncelanes" (address ∷ [])
    done (p ∷ [])

  pub probe_capabilities : Exec Session (List (String × Bool))
  unfolding outcome cli probe probe_lanes address_of
  probe_capabilities = do
    a ← probe cap_validator_status "getvalidatorstatus" []
    b ← probe cap_block_producer_info "getblockproducerinfo" []
    c ← probe cap_recent_blocks "getrecentblocks" ("1" ∷ [])
    d ← probe cap_velocity "getvelocityinfo" []
    wallet ← outcome (cli "getwalletinfo" [])
    lanes ← probe_lanes (address_of wallet)
    done (a ∷ b ∷ c ∷ d ∷ lanes)

  pub probed : Exec Session (List (String × Bool))
  unfolding probe_capabilities
  probed = do caps ← probe_capabilities; modify (λ s. record s { caps = some caps }); done caps

  -- Capabilities: probed once.
  abbrev pub cached : Option (List (String × Bool)) → Exec Session (List (String × Bool))
  cached (some caps) = done caps
  cached none = probed

  unfoldable pub capabilities : Exec Session (List (String × Bool))
  unfolding probed
  capabilities s = cached s.caps s

  pub activate : Exec Session (Unit {0})
  unfolding probed health
  activate = do caps ← probed; health

  pub deactivate : Exec Session (Unit {0})
  deactivate = modify (λ s. record s { caps = none })

  -- A missing raw message does not decode.
  abbrev pub decode : {A : Type 0} → (Raw → Option A) → Option Raw → Exec Session A
  decode f none = fail bad_json
  decode f (some raw) = elim (f raw) [ none ↦ fail bad_json | some a ↦ done a ]

  -- The fields of a command's answer.
  unfoldable pub query : String → Exec Session Fields
  unfolding cli fields
  query command = do raw ← cli command []; decode (fields l.json) (some raw)

  abbrev pub object_fields : Option Fields → Fields
  object_fields none = []
  object_fields (some m) = m

  -- The answer's result, as an object; null is an empty one.
  pub result_object : Raw → Exec Session Fields
  unfolding result
  result_object raw = do
    r ← decode (result l.json) (some raw)
    o ← decode l.json.object (some r)
    done (object_fields o)

  -- The text of a limit's argument.
  abbrev pub limit_text : ℕ → String
  limit_text n = l.of_codes (itoa (limited n))

  -- A command that answers with a list of objects under a key.
  unfoldable pub entries : String → String → ℕ → Exec Session (List Fields)
  unfolding cli result_object lookup
  entries command key limit = do
    raw ← cli command (limit_text limit ∷ [])
    o ← result_object raw
    decode l.objects (lookup key o)

  -- Fields of an answer that may be missing or of another shape.
  abbrev pub fields_or_none : Result Raw → Fields
  fields_or_none (err e) = []
  fields_or_none (ok raw) = object_fields (fields l.json raw)

  unfoldable pub optional_fields : String → Exec Session Fields
  unfolding outcome cli
  optional_fields command = do r ← outcome (cli command []); done (fields_or_none r)

  -- A query behind a capability: without it, qrx-cli is not run.
  unfoldable pub gated : {A : Type 0} → String → A → Exec Session A → Exec Session A
  unfolding capabilities has_cap
  gated key unsupported supported = do
    caps ← capabilities
    if has_cap key caps then supported else done unsupported

  -- qrx.Str and qrx.Int64, as the Values that they return.
  abbrev pub text : Fields → List String → Value String
  text m keys = reported "" (str l.json m keys)

  abbrev pub number : Fields → List String → Value ℕ
  number m keys = reported 0 (int64_of l.json m keys)
