-- ===== src/Components/Extract.antt =====
-- agent/updates/components/dashboard.go: the archive of a dashboard release, unpacked into a directory.
--
-- Paths are Go's path/filepath, a parameter. The calls of the file system are listed, newest first, and
-- `fails` says which of them fail; the contents of a file are not modelled.
use qrx_node_suite.Prelude.{
  ℕ, String, Bool, true, false, ◌||◌, is_some, List, ◌∷◌, ◌++◌, codes, length, if◌then◌else◌, ◌==◌,
}
use qrx_node_suite.Errors.{
  Result, ok, err, io_failure, escapes_directory, unsupported_entry, broken_archive, cancelled,
}
use qrx_node_suite.Exec.{Exec, done, fail, ◌>>◌}
use qrx_node_suite.Api.{after_prefix}

pub record Paths : Type 0 where
  pub clean : String → String
  pub join : String → String → String
  -- filepath.Dir.
  pub parent : String → String

pub data Call : Type 0 where
  mkdir_all : String → Call
  open_file : String → Call
  copy_to : String → Call

pub record Files : Type 0 where
  pub calls : List Call
  pub fails : ℕ → Bool

unfoldable pub call : Call → Exec Files (Unit {0})
call c f =
    (if f.fails (length f.calls) then err io_failure else ok tt, record f { calls = c ∷ f.calls })

pub data Kind : Type 0 where
  directory regular other : Kind

-- The entries of the stream, and how it ends: at its end, by an error, or by a cancelled context.
pub data Archive : Type 0 where
  finished broken stopped : Archive
  entry : Kind → String → Archive → Archive

module _ (p : Paths) where
  -- safeJoin.
  unfoldable pub is_safe : String → String → Bool
  unfolding after_prefix
  is_safe dir cleaned =
      (cleaned == p.clean dir)
      || is_some (after_prefix (codes (p.clean dir) ++ codes "/") (codes cleaned))

  unfoldable pub safe_join : String → String → Result String
  unfolding is_safe
  safe_join dir name =
      let cleaned = p.clean (p.join dir name) in
      if is_safe dir cleaned then ok cleaned else err (escapes_directory name)

  unfoldable pub write_entry : Kind → String → String → Exec Files (Unit {0})
  write_entry directory name target = call (mkdir_all target)
  write_entry regular name target = do
    call (mkdir_all (p.parent target))
    call (open_file target)
    call (copy_to target)
  write_entry other name target = fail (unsupported_entry name)

  unfoldable pub unpack : Kind → String → Result String → Exec Files (Unit {0})
  unfolding write_entry
  unpack k name (err e) = fail e
  unpack k name (ok target) = write_entry k name target

  -- Extract, on an open stream.
  unfoldable pub extract : String → Archive → Exec Files (Unit {0})
  unfolding unpack safe_join
  extract dir finished = done tt
  extract dir broken = fail broken_archive
  extract dir stopped = fail cancelled
  extract dir (entry k name rest) =
      let others = extract dir rest in (unpack k name (safe_join dir name) >> others)

  -- extractBinary, and Extract of a compatibility profile: one file of a fixed name.
  unfoldable pub extract_file : String → String → Exec Files (Unit {0})
  extract_file name dir = do
    call (mkdir_all dir)
    call (open_file (p.join dir name))
    call (copy_to (p.join dir name))

-- binaryName, by whether the system is Windows.
pub binary_name : Bool → String
binary_name true = "agentd.exe"
binary_name false = "agentd"
