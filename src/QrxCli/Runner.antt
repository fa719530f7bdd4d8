-- ===== src/QrxCli/Runner.antt =====
-- agent/qrx/runner.go and agent/qrx/config.go: a run of qrx-cli.
--
-- The process is a parameter: what the run with a number and its arguments comes to. The caller's
-- context adds nothing to the timeout, and an error keeps no text but the one of an RPC failure.
use qrx_node_suite.Prelude.{
  ℕ, String, Bool, true, false, Option, none, some, List, [], ◌∷◌, ◌++◌, eqb, length, if◌then◌else◌,
  ◌==◌,
}
use qrx_node_suite.Errors.{Result, ok, err, command_timeout, command_failed, rpc_failed}
use qrx_node_suite.Exec.{Exec, ◌>>=◌, done}

pub record Config : Type 0 where
  pub cli_path : String
  pub data_dir : String
  pub network : String
  pub wallet_name : String
  -- Nanoseconds; a negative one is 0.
  pub timeout : ℕ

pub timeout : Config → ℕ
timeout c = if eqb c.timeout 0 then 5000000000 else c.timeout

pub cli_path : Config → String
cli_path c = if c.cli_path == "" then "qrx-cli" else c.cli_path

-- How a process ends: killed by the deadline, failed, or with its standard output.
pub data Ran (Raw : Type 0) : Type 0 where
  timed_out exited : Ran Raw
  printed : Raw → Ran Raw

-- The process by the number of the run, its program, its deadline and its arguments, and the decoding
-- of the envelope's fields `ok` and `error`.
pub record Process (Raw : Type 0) : Type 0 where
  pub run : ℕ → String → ℕ → List String → Ran Raw
  pub envelope : Raw → Option (Option Bool × String)

abbrev pub flag : String → String → List String
flag name value = if value == "" then [] else name ∷ value ∷ []

pub base_args : Config → List String
base_args c =
    flag "--network" c.network ++ (flag "--datadir" c.data_dir ++ flag "--wallet" c.wallet_name)

-- qrx-cli may exit with 0 and report a failure.
unfoldable pub checked : {Raw : Type 0} → Raw → Option (Option Bool × String) → Result Raw
checked raw none = ok raw
checked raw (some (none, message)) = ok raw
checked raw (some (some true, message)) = ok raw
checked raw (some (some false, message)) = err (rpc_failed message)

module _ {Raw : Type 0} (p : Process Raw) where
  unfoldable pub ended : Ran Raw → Result Raw
  unfolding checked
  ended timed_out = err command_timeout
  ended exited = err command_failed
  ended (printed raw) = checked raw (p.envelope raw)

  -- Call, on the argument lists of the runs so far, newest first.
  unfoldable pub call : Config → String → List String → Exec (List (List String)) Raw
  unfolding ended
  call c command args log =
      let all = base_args c ++ (command ∷ args) in
      (ended (p.run (length log) (cli_path c) (timeout c) all), all ∷ log)

  pub ping : Config → Exec (List (List String)) (Unit {0})
  unfolding ◌>>=◌
  ping c = do raw ← call c "getuptime" []; done tt
