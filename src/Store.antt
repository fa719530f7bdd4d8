-- ===== src/Store.antt =====
-- agent/updates/store: the releases of one component and its three pointers on disk.
--
-- A call of the operating system is one tick; `fails` and `unlink_fails` say which ticks fail, so a
-- theorem over every store covers every pattern of failures. A pointer holds a version string, as
-- readPointer returns it, whether a symbolic link or a file encodes it.
pub mod Promote
pub mod Live
pub mod Prune
pub mod Steps
pub mod Releases
pub mod Reliable
pub mod Switch
pub mod Tied
mod Tests
use qrx_node_suite.Prelude.{
  ℕ, ◌+◌, String, Bool, false, not, ◌||◌, Option, none, some, List, [], ◌∷◌, eqb, if◌then◌else◌,
  codes, ◌==◌,
}
use qrx_node_suite.Errors.{
  ok, err, io_failure, invalid_component, already_active, already_previous, nothing_staged,
  no_previous, not_installed, no_active,
}
use qrx_node_suite.Exec.{Exec, done, fail, reads, modify, ◌>>=◌, ◌>>◌, guard}

unfoldable pub has : String → List String → Bool
has v [] = false
has v (w ∷ ws) = w == v || has v ws

pub without : String → List String → List String
without v [] = []
without v (w ∷ ws) = let rest = without v ws in if w == v then rest else w ∷ rest

-- What is on disk. `releases` are the directories under releases/; a removal of a pointer at tick
-- `n` fails if `unlink_fails n`.
pub record Disk : Type 0 where
  pub current : Option String
  pub previous : Option String
  pub staged : Option String
  pub releases : List String
  pub unlink_fails : ℕ → Bool

pub record Store : Type 0 where
  pub component : String
  pub disk : Disk
  pub open disk use *
  pub ticks : ℕ
  pub fails : ℕ → Bool

pub data Pointer : Type 0 where
  pointer_current pointer_previous pointer_staged : Pointer

abbrev pub pointer : Pointer → Disk → Option String
pointer pointer_current d = d.current
pointer pointer_previous d = d.previous
pointer pointer_staged d = d.staged

abbrev pub set_pointer : Pointer → Option String → Disk → Disk
set_pointer pointer_current v d = record d { current = v }
set_pointer pointer_previous v d = record d { previous = v }
set_pointer pointer_staged v d = record d { staged = v }

abbrev pub add_release : String → Disk → Disk
add_release v d = record d { releases = if has v d.releases then d.releases else v ∷ d.releases }

abbrev pub drop_release : String → Disk → Disk
drop_release v d = record d { releases = without v d.releases }

abbrev pub on_disk : (Disk → Disk) → Exec Store (Unit {0})
on_disk f = modify (λ s. record s { disk = f s.disk })

abbrev tick : Store → Store
tick s = record s { ticks = s.ticks + 1 }

-- One call of the operating system that has no effect when it fails.
unfoldable pub syscall : Exec Store (Unit {0})
syscall s = (if s.fails s.ticks then err io_failure else ok tt, tick s)

pub unlink : Exec Store (Unit {0})
unlink s = (if s.unlink_fails s.ticks then err io_failure else ok tt, tick s)

has_separator : List ℕ → Bool
has_separator [] = false
has_separator (c ∷ s) = eqb c b'/' || eqb c 0x5c || has_separator s

unfoldable pub is_valid_component : String → Bool
unfolding has_separator
is_valid_component c = not (c == "" || c == "." || c == ".." || has_separator (codes c))

unfoldable pub validate : Exec Store (Unit {0})
unfolding guard
validate s = guard (is_valid_component s.component) (invalid_component s.component) s

-- A missing pointer is `none`, and no error.
unfoldable pub read_pointer : Pointer → Exec Store (Option String)
unfolding validate syscall ◌>>=◌
read_pointer p = do validate; syscall; reads (λ s. pointer p s.disk)

-- The root, the pointer under a temporary name, then the rename that makes it visible.
pub write_pointer_atomic : Pointer → String → Exec Store (Unit {0})
unfolding validate syscall ◌>>=◌
write_pointer_atomic p v = do validate; syscall; syscall; syscall; on_disk (set_pointer p (some v))

pub remove_pointer : Pointer → Exec Store (Unit {0})
unfolding unlink ◌>>=◌
remove_pointer p = do unlink; on_disk (set_pointer p none)

-- os.MkdirAll, os.RemoveAll and os.Stat of a release directory.
pub mkdir_release : String → Exec Store (Unit {0})
unfolding syscall ◌>>=◌ guard
mkdir_release v = do syscall; on_disk (add_release v)

pub remove_release : String → Exec Store (Unit {0})
unfolding syscall ◌>>=◌ guard
remove_release v = do syscall; on_disk (drop_release v)

pub stat_release : String → Exec Store (Unit {0})
unfolding syscall ◌>>=◌ guard
stat_release v = do
  syscall
  present ← reads (λ s. has v s.releases)
  guard present (not_installed v)

abbrev pub names : Option String → String → Bool
names none v = false
names (some w) v = w == v

unfoldable pub read_current : Exec Store (Option String)
unfolding read_pointer
read_current = read_pointer pointer_current

unfoldable pub read_previous : Exec Store (Option String)
unfolding read_pointer
read_previous = read_pointer pointer_previous

unfoldable pub read_staged : Exec Store (Option String)
unfolding read_pointer
read_staged = read_pointer pointer_staged

-- CurrentDir: the version whose release directory it names.
unfoldable pub current_dir : Exec Store String
unfolding read_current
current_dir = do cur ← read_current; elim cur [ none ↦ fail no_active | some v ↦ done v ]

pub bootstrap_current : String → Exec Store (Unit {0})
unfolding validate read_current write_pointer_atomic
bootstrap_current v = do
  validate
  cur ← read_current
  elim cur [ some w ↦ done tt | none ↦ write_pointer_atomic pointer_current v ]

unfoldable pub stage : String → Exec Store (Unit {0})
unfolding validate read_current read_previous mkdir_release write_pointer_atomic
stage v = do
  validate
  cur ← read_current
  guard (not (names cur v)) (already_active v)
  prev ← read_previous
  guard (not (names prev v)) (already_previous v)
  mkdir_release v
  write_pointer_atomic pointer_staged v

unfoldable pub discard_staged : Bool → Exec Store (Unit {0})
unfolding read_staged remove_release remove_pointer
discard_staged remove_files = do
  staged ← read_staged
  elim staged [
    | none ↦ done tt
    | some v ↦ do
      (if remove_files then remove_release v else done tt)
      remove_pointer pointer_staged
  ]

-- The active version becomes the rollback target.
pub keep_previous : Option String → Exec Store (Unit {0})
unfolding write_pointer_atomic
keep_previous none = done tt
keep_previous (some cur) = write_pointer_atomic pointer_previous cur

unfoldable pub promote : Exec Store (Unit {0})
unfolding read_staged read_current keep_previous write_pointer_atomic remove_pointer
promote = do
  staged ← read_staged
  elim staged [
    | none ↦ fail nothing_staged
    | some v ↦ do
      cur ← read_current
      keep_previous cur
      write_pointer_atomic pointer_current v
      remove_pointer pointer_staged
  ]

-- The pointer swap of PromoteVersion, after the version was found on disk.
pub switch_from : String → Option String → Exec Store (Unit {0})
unfolding keep_previous write_pointer_atomic
switch_from v cur =
    if names cur v then done tt else do keep_previous cur; write_pointer_atomic pointer_current v

unfoldable pub promote_version : String → Exec Store (Unit {0})
unfolding validate stat_release read_current switch_from
promote_version v = do validate; stat_release v; cur ← read_current; switch_from v cur

unfoldable pub rollback_to_previous : Exec Store (Unit {0})
unfolding read_previous read_current keep_previous write_pointer_atomic
rollback_to_previous = do
  prev ← read_previous
  elim prev [
    | none ↦ fail no_previous
    | some v ↦ do cur ← read_current; write_pointer_atomic pointer_current v; keep_previous cur
  ]
