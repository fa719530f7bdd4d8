-- ===== src/Qrx007/Tests.antt =====
-- Two answers of qrx-cli, and the theorems on the adapters applied to them.
use Prim.Native.Char.{Char, char, nul}
use qrx_node_suite.QrxCli.{itoa, digits, fill}
use qrx_node_suite.Prelude.{
  ℕ, ◌≡◌, refl, String, Bool, true, false, none, some, List, [], ◌∷◌, eqb, if◌then◌else◌,
}
use qrx_node_suite.Errors.{ok}
use qrx_node_suite.Exec.{◌>>=◌, outcome, done}
use qrx_node_suite.QrxCli.{lookup, fields, str, int64_of, unwrapped, first}
use qrx_node_suite.QrxCli.Runner.{Config, exited, printed, checked, ended, call}
use qrx_node_suite.Node.{NodeStatus}
use qrx_node_suite.Node.Reports.{reported, avail, unavail}
use qrx_node_suite.Poller.Tests.{models}
use qrx_node_suite.Qrx007.{
  Library, Session, new, cli, optional_fields, capabilities, gated, has_cap, cap_velocity,
}
use qrx_node_suite.Qrx007.Reports
use qrx_node_suite.Qrx007.Reports.{
  get_node_status, node_status, status_of, get_recent_blocks, get_blockchain_info,
}
use qrx_node_suite.Qrx007.Answers.{says_failed}
use qrx_node_suite.Qrx007.Backed.{Backed, status_run, get_node_status-Backed}
use qrx_node_suite.Qrx007.Limits.{Asked, get_recent_blocks-Asked}
use qrx_node_suite.Qrx007.Cached.{capabilities_cached}
use qrx_node_suite.Legacy006
use qrx_node_suite.Legacy006.Agreement.{chain, get_blockchain_info-agrees}

abbrev config : Config
config = record { cli_path = ""; data_dir = ""; network = "regtest"; wallet_name = ""; timeout = 0 }

-- The characters of a numeral; any other code is NUL.
abbrev digit : ℕ → Char
digit c =
    if eqb c 48
    then char 48 tt
    else if eqb c 49
    then char 49 tt
    else if eqb c 50
    then char 50 tt
    else if eqb c 51
    then char 51 tt
    else if eqb c 52
    then char 52 tt
    else if eqb c 53
    then char 53 tt
    else if eqb c 54
    then char 54 tt
    else if eqb c 55
    then char 55 tt
    else if eqb c 56
    then char 56 tt
    else if eqb c 57
    then char 57 tt
    else nul

spelled : List ℕ → String
spelled [] = ""
spelled (c ∷ s) = String.◌∷◌ (digit c) (spelled s)

-- The message 0 is an object with a height, 1 the number 42; the runs after the first fail.
abbrev library : Library
library = record {
  json = record {
    Raw = ℕ;
    object = λ n. if eqb n 0 then some (some (("height", 1) ∷ [])) else none;
    string = λ n. none;
    int64 = λ n. if eqb n 1 then some 42 else none;
    bool = λ n. none;
    number_text = λ n. none;
  };
  process = record {
    run = λ n program deadline args. if eqb n 0 then printed 0 else exited;
    envelope = λ n. none;
  };
  objects = λ n. none;
  strings = λ n. none;
  scan_lane = λ text. none;
  of_codes = spelled;
}

abbrev known : NodeStatus models
known = node_status models 0 library config (("height", 1) ∷ []) [] [] []

reached : (get_node_status models 0 library config new).0 ≡ ok known
unfolding get_node_status status_of node_status cli call ended checked optional_fields outcome
    fields unwrapped lookup str int64_of first reported avail unavail ◌>>=◌
reached = refl

get_node_status-Backed_example :
    (raw : ℕ) × (status_run models 0 library config new ≡ printed raw)
    × (says_failed (library.process.envelope raw) ≡ false)
    × Backed models 0 library config raw known
get_node_status-Backed_example = get_node_status-Backed models 0 library config new known reached

five : spelled (itoa 5) ≡ "5"
unfolding spelled itoa digits fill
five = refl

get_recent_blocks-Asked_example :
    Asked library config "getrecentblocks" 5 [] (get_recent_blocks library config 5 new).1.runs
get_recent_blocks-Asked_example = get_recent_blocks-Asked library config 5 new

capabilities_cached_example :
    (caps : List (String × Bool)) × (t : Session) × (capabilities library config new ≡ (ok caps, t))
    × (capabilities library config t ≡ (ok caps, t))
    × (gated library config cap_velocity false (done true) t
        ≡ (if has_cap cap_velocity caps then done true else done false) t)
capabilities_cached_example = capabilities_cached library config new cap_velocity false (done true)

get_blockchain_info-agrees_example :
    chain (Legacy006.get_blockchain_info library config new)
    ≡ chain (Reports.get_blockchain_info library config new)
get_blockchain_info-agrees_example = get_blockchain_info-agrees library config new
